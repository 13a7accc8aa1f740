-- ===== src/Response/Exchange.antt =====
-- src/server.rs, `handle_http`: what the client sees of one request, from the head of the response
-- and the chunks that the task forwards behind it.
use rustasgi.Base.{ℕ, Bool, List}
use rustasgi.Response.{Ready, Turn, again, done, state_of}
use rustasgi.Response.Start.{Waiting, Answer, started, refused, waiting, await_start}
use rustasgi.Response.Stream.{pump}
use rustasgi.Response.Respond.{Script, enter}
use rustasgi.Response.Head.{HttpApi, Head, built, replaced, build_head}

module _ (http : HttpApi) where
  -- `plain_500` is a `status_response(500, ..)`.
  pub data Seen : Type 0 where
    nothing_yet : Seen
    plain_500 : Seen
    response : (status : ℕ) (headers : http.Map) (chunks : List (List ℕ)) → Seen

  abbrev pub see : Head http → List (List ℕ) → Seen
  see (built status headers) chunks = response status headers chunks
  see replaced chunks = plain_500

  abbrev pub seen_behind : Bool → Bool → List Ready → Turn Waiting Answer → Seen
  seen_behind has_body is_head turns (again w) = nothing_yet
  seen_behind has_body is_head turns (done w refused) = plain_500
  seen_behind has_body is_head turns (done w (started status headers)) =
      see (build_head http status headers).0 (state_of (pump (enter has_body is_head w) turns)).sent

  unfoldable pub seen : Bool → Bool → Script → Seen
  seen has_body is_head s =
      seen_behind has_body is_head s.turns (await_start (waiting has_body) s.starts)
