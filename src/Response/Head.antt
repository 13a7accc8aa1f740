-- ===== src/Response/Head.antt =====
-- src/server.rs, `handle_http`: the head of the response, from the status and the headers of the
-- start event; `log_access` and `log_access_task`. The header map is that of the crate `http`.
use rustasgi.Base.{ℕ, Bool, not, ◌&&◌, List, [], ◌∷◌, ◌++◌, Option, none, some, if◌then◌else◌}
use rustasgi.Message.{Header, get_or}
use rustasgi.Metrics.{Metrics, inc}
use rustasgi.Call.Establish.{c_attach}

-- `StatusCode`, `HeaderName`, `HeaderValue` and `HeaderMap`.
pub record HttpApi : Type 1 where
  pub Name : Type 0
  pub Value : Type 0
  pub Map : Type 0
  pub from_u16 : ℕ → Option ℕ
  pub header_name : List ℕ → Option Name
  pub header_value : List ℕ → Option Value
  pub empty : Map
  -- `none` is the map's size limit.
  pub try_append : Map → Name → Value → Option Map

module _ (http : HttpApi) where
  open http use {Name, Value, Map, from_u16, header_name, header_value, empty, try_append}

  -- `response::Builder`, which keeps its first error, and the names that are reported as skipped.
  pub record Builder : Type 0 where
    pub parts : Option Map
    pub skipped : List (List ℕ)

  -- `Response::builder()`.
  abbrev pub builder : Builder
  builder = record { parts = some empty; skipped = [] }

  append : Option Map → Name → Value → Option Map
  append none n v = none
  append (some m) n v = try_append m n v

  unfoldable pub add_header : Builder → List ℕ → Option Name → Option Value → Builder
  unfolding append
  add_header b k (some n) (some v) = record b { parts = append b.parts n v }
  add_header b k (some n) none = record b { skipped = b.skipped ++ k ∷ [] }
  add_header b k none v = record b { skipped = b.skipped ++ k ∷ [] }

  unfoldable pub add_headers : Builder → List Header → Builder
  unfolding add_header
  add_headers b [] = b
  add_headers b ((k, v) ∷ hs) = add_headers (add_header b k (header_name k) (header_value v)) hs

  -- What `builder.body(..)` gives: the response, or the plain 500 in its place.
  pub data Head : Type 0 where
    built : (status : ℕ) (headers : Map) → Head
    replaced : Head

  head_of : ℕ → Option Map → Head
  head_of status none = replaced
  head_of status (some m) = built status m

  -- `StatusCode::from_u16(status).unwrap_or(StatusCode::INTERNAL_SERVER_ERROR)`.
  unfoldable pub status_or_500 : ℕ → ℕ
  status_or_500 status = get_or (from_u16 status) 500

  -- The head, and the names that are reported as skipped.
  unfoldable pub build_head : ℕ → List Header → Head × List (List ℕ)
  unfolding head_of
  build_head status headers =
      let b = add_headers builder headers in (head_of (status_or_500 status) b.parts, b.skipped)

-- One line of the access log. The duration is in nanoseconds; the source prints milliseconds.
pub record Entry : Type 0 where
  pub method : List ℕ
  pub path : List ℕ
  pub query : List ℕ
  pub status : ℕ
  pub size : ℕ
  pub duration : ℕ
  pub client : List ℕ

-- What a log call does: it calls the hook, whose exception it prints, or prints a line that has all
-- but the query.
pub data Logged : Type 0 where
  hooked : Entry → (raised : Bool) → Logged
  printed : (client method path : List ℕ) (status size duration : ℕ) → Logged

-- The hook is given by whether it raises.
emit : Option (Entry → Bool) → Bool → Entry → List Logged
emit (some hook) enabled e = hooked e (hook e) ∷ []
emit none enabled e =
    if enabled then printed e.client e.method e.path e.status e.size e.duration ∷ [] else []

abbrev no_hook : Option (Entry → Bool) → Bool
no_hook none = Bool.true
no_hook (some _) = Bool.false

-- What `log_access` does, and the counters behind it.
unfoldable pub log_access : Option (Entry → Bool) → Bool → Entry → Metrics → List Logged × Metrics
unfolding emit
log_access hook enabled e m =
    if no_hook hook && not enabled then ([], m) else (emit hook enabled e, inc c_attach m)

unfoldable pub log_access_task : Option (Entry → Bool) → Bool → Entry → List Logged
unfolding emit
log_access_task hook enabled e = if no_hook hook && not enabled then [] else emit hook enabled e
