-- ===== src/Response/HandleLaws.antt =====
-- Every request ends, and releases its guard once (src/server.rs, `handle_http`).
use rustasgi.Base.{
  ◌||◌, ℕ, ◌≤◌, ◌≡◌, refl, ◌≢◌, Bool, true, false, List, [], ◌∷◌, ◌++◌, none, some, any,
  if◌then◌else◌, Result, ok, err, Bool-cases, Option-cases, inl, inr, arith,
}
use rustasgi.Message.{start, body}
use rustasgi.Request.Front.{Platform, HttpRequest, RequestData, Front, reply, call, front}
use rustasgi.Call.Establish.{establish_http_call, Call}
use rustasgi.Response.{
  Ready, Effect, drop_guard, Turn, again, done, outcome, state_of, count_by, count_by-append,
  is_report, is_log, is_drop,
}
use rustasgi.Response.Start.{Waiting, Answer, started, refused, waiting, start_turn, await_start}
use rustasgi.Response.StartLaws.{is_overdue, await_start-again, await_start-stop}
use rustasgi.Response.Accounting.{drain_reaper-reports, reap-counts}
use rustasgi.Response.Respond.{Script, conclude, respond}
use rustasgi.Response.RespondLaws.{respond-IsSettled, respond-IsDelivered}
use rustasgi.Response.EndLaws.{respond-ends}
use rustasgi.Response.Handle.{is_head, Context, serve_call, handle_front, handle_http}
use Prim.Native.String.{String}

-- The application's channel yields a body event.
abbrev pub yields_body : Ready → Bool
yields_body r = elim r.recv [
  | none ↦ false
  | some e ↦ elim e [ none ↦ false | some (start _ _) ↦ false | some (body _ _) ↦ true ]
]

-- A body event in front of the start.
abbrev pub is_early : Script → Bool
is_early s = any yields_body s.starts

start_turn-logs :
    (s : Waiting) (r : Ready)
    → yields_body r ≡ false
    → count_by is_log s.effects ≡ 0
    → outcome (start_turn s r) ≡ some refused
    → count_by is_log (state_of (start_turn s r)).effects ≡ 1
unfolding start_turn
start_turn-logs s r b h e = grind (arith, count_by-append)

start_turn-quiet :
    (s : Waiting) (r : Ready)
    → count_by is_log s.effects ≡ 0
    → outcome (start_turn s r) ≡ none
    → count_by is_log (state_of (start_turn s r)).effects ≡ 0
unfolding start_turn
start_turn-quiet s r h e = grind (arith, count_by-append)

await_start-logs :
    (s : Waiting) (rs : List Ready)
    → any yields_body rs ≡ false
    → count_by is_log s.effects ≡ 0
    → outcome (await_start s rs) ≡ some refused
    → count_by is_log (state_of (await_start s rs)).effects ≡ 1
await_start-logs s [] b h = unfold await_start in λ e. cc
await_start-logs s (r ∷ rs) b h = elim (Option-cases (outcome (start_turn s r))) [
  | inl more ↦
      rw (await_start-again s r rs more) (
        await_start-logs (state_of (start_turn s r)) rs (ground arith)
          (start_turn-quiet s r h more))
  | inr (a, over) ↦ rw (await_start-stop s r rs over) (start_turn-logs s r (ground arith) h)
]

conclude-logs :
    (has_body head : Bool) (s : Script) (t : Turn Waiting Answer) {n : ℕ} {es : List Effect}
    → outcome t ≡ some refused
    → count_by is_log (state_of t).effects ≡ 1
    → conclude has_body head s t ≡ some (n, es)
    → count_by is_log es ≡ 1
unfolding conclude
conclude-logs has_body head s (again w) o h e = cc
conclude-logs has_body head s (done w (started st hs)) o h e = cc
conclude-logs has_body head s (done w refused) o h e =
    let fs = w.effects ++ drop_guard ∷ [] in
    ground (
      arith,
      reap-counts is_log w.app_logged s.reaped (drain_reaper-reports w.app_logged s.reaped).1 fs,
      count_by-append is_log w.effects (drop_guard ∷ []),
    )

conclude_unfinished :
    (has_body head : Bool) (s : Script) (t : Turn Waiting Answer) {n : ℕ} {es : List Effect}
    → outcome t ≡ none
    → conclude has_body head s t ≢ some (n, es)
unfolding conclude
conclude_unfinished has_body head s (again w) o = λ e. cc
conclude_unfinished has_body head s (done w a) o = cc

respond-logs :
    (has_body head : Bool) (s : Script) (n : ℕ) (es : List Effect)
    → is_early s ≡ false
    → respond has_body head s ≡ some (n, es)
    → count_by is_log es ≡ 1
unfolding respond
respond-logs has_body head s n es b e =
    let w = waiting has_body in
    elim (Option-cases (outcome (await_start w s.starts))) [
      | inl more ↦ absurd (conclude_unfinished has_body head s (await_start w s.starts) more e)
      | inr (started st hs, over) ↦ (respond-IsDelivered has_body head s st n hs es over e).1.logs
      | inr (refused, over) ↦
          conclude-logs has_body head s (await_start w s.starts) over
            (await_start-logs w s.starts b (unfold waiting in refl) over) e
    ]

-- The least and the most calls of the access log for a request: none for a reply of Rust's own, and one for a
-- call of the application that does not send a body in front of its start.
abbrev pub fewest : Script → Front → ℕ
fewest s (reply r) = 0
fewest s (call d) = if is_early s then 0 else 1

abbrev pub most : Front → ℕ
most (reply r) = 0
most (call d) = 1

-- What holds of a request that is over.
pub record IsHandled (s : Script) (f : Front) (es : List Effect) : Type 0 where
  pub reports : count_by is_report es ≤ 1
  pub drops : count_by is_drop es ≡ 1
  pub logged : fewest s f ≤ count_by is_log es
  pub once : count_by is_log es ≤ most f

respond-IsHandled :
    (has_body head : Bool) (s : Script) (n : ℕ) (es : List Effect) (d : RequestData)
    → respond has_body head s ≡ some (n, es)
    → IsHandled s (call d) es
respond-IsHandled has_body head s n es d e =
    let all = respond-IsSettled has_body head s n es e in
    elim (Bool-cases (is_early s)) [
      | inl early ↦ ground arith
      | inr late ↦ ground (arith, respond-logs has_body head s n es late e)
    ]

serve_call-IsHandled :
    {Obj : Type 0} (has_body head : Bool) (s : Script) (c : Result String (Call Obj)) (n : ℕ)
    (es : List Effect) (d : RequestData)
    → serve_call has_body head s c ≡ some (n, es)
    → IsHandled s (call d) es
unfolding serve_call
serve_call-IsHandled has_body head s (err m) n es d e = ground arith
serve_call-IsHandled has_body head s (ok c) n es d e = respond-IsHandled has_body head s n es d e

serve_call-ends :
    {Obj : Type 0} (has_body head : Bool) (s : Script) (c : Result String (Call Obj))
    → any is_overdue s.starts ≡ true
    → any is_overdue s.turns ≡ true
    → serve_call has_body head s c ≢ none
unfolding serve_call
serve_call-ends has_body head s (err m) a b = λ e. cc
serve_call-ends has_body head s (ok c) a b = respond-ends has_body head s a b

module _ (io : Platform) {Obj : Type 0} (ctx : Context Obj) (req : HttpRequest) (s : Script) where
  pub handle_front-IsHandled :
      (f : Front) (n : ℕ) (es : List Effect)
      → handle_front io ctx req s f ≡ some (n, es)
      → IsHandled s f es
  unfolding handle_front
  handle_front-IsHandled (reply r) n es e = ground arith
  handle_front-IsHandled (call d) n es e = ground (
    arith,
    serve_call-IsHandled d.has_body (is_head req) s
        (establish_http_call ctx.lifespan_state d ctx.direct_queue ctx.calls) n es d,
  )

  handle_front-ends :
      (f : Front)
      → (ctx.direct_queue || ctx.init_ends) ≡ true
      → any is_overdue s.starts ≡ true
      → any is_overdue s.turns ≡ true
      → handle_front io ctx req s f ≢ none
  unfolding handle_front
  handle_front-ends (reply r) i a b = λ e. cc
  handle_front-ends (call d) i a b = λ e. ground (
    arith,
    serve_call-ends d.has_body (is_head req) s
        (establish_http_call ctx.lifespan_state d ctx.direct_queue ctx.calls) a b,
  )

  -- A request over HTTP is over, whatever it asks for and whatever fails, once each of the two loops
  -- that wait for the application has got to a turn in which its deadline has passed and no other
  -- source is ready; where the call is set up by an init coroutine, whose wait has no bound, that
  -- coroutine has to end.
  pub handle_http-ends :
      (ctx.direct_queue || ctx.init_ends) ≡ true
      → any is_overdue s.starts ≡ true
      → any is_overdue s.turns ≡ true
      → handle_http io ctx req s ≢ none
  unfolding handle_http
  handle_http-ends = handle_front-ends (front io ctx.store ctx.place req)
