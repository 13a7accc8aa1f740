-- ===== src/Response/HeadLaws.antt =====
-- Which headers reach the client, and what is logged (src/server.rs).
use mathlib.Core.List.{append_assoc, append-nil}
use rustasgi.Base.{
  ℕ, suc, ◌+◌, ◌≤◌, ◌<◌, ◌⊎◌, inl, inr, ◌≡◌, refl, sym, ap, ◌∙◌, arith, Bool, true, false, List, [],
  ◌∷◌, ◌++◌, Option, none, some, length, if◌then◌else◌, ok,
}
use rustasgi.Python.{PyApi}
use rustasgi.Message.{Header, start, parse_send_message}
use rustasgi.Message.Laws.{parse_send_message_sound}
use rustasgi.Metrics.{Metrics, inc}
use rustasgi.Call.Establish.{c_attach}
use rustasgi.Response.Head.{
  HttpApi, Builder, builder, add_header, add_headers, built, build_head, status_or_500, Entry,
  log_access, log_access_task,
}

-- What the crate documents of a map: the values of a name in the order of their insertion, room for
-- `capacity` values at least, and the status codes.
pub record HttpLaws (http : HttpApi) (capacity : ℕ) : Type 0 where
  pub get_all : http.Map → http.Name → List http.Value
  pub len : http.Map → ℕ
  pub same : http.Name → http.Name → Bool
  pub from_u16_some : (s : ℕ) → 100 ≤ s → s ≤ 999 → http.from_u16 s ≡ some s
  pub get_all_empty : (n : http.Name) → get_all http.empty n ≡ []
  pub len_empty : len http.empty ≡ 0
  pub try_append_some :
      (m : http.Map) (n : http.Name) (v : http.Value)
      → len m < capacity
      → (m' : http.Map) × (http.try_append m n v ≡ some m')
        × (len m' ≡ suc (len m))
        × ((k : http.Name) → get_all m' k ≡ get_all m k ++ (if same n k then v ∷ [] else []))

module _ (http : HttpApi) (capacity : ℕ) (laws : HttpLaws http capacity) where
  open http use {Name, Value, Map, header_name, header_value, empty, try_append}
  open laws use {get_all, len, same, try_append_some}

  -- The values that a list of headers has for a name, of those whose name and value are valid.
  abbrev pub value_of : Name → Option Name → Option Value → List Value
  value_of k (some n) (some v) = if same n k then v ∷ [] else []
  value_of k (some n) none = []
  value_of k none v = []

  abbrev pub values : Name → List Header → List Value
  values k [] = []
  values k ((n, v) ∷ hs) = value_of k (header_name n) (header_value v) ++ values k hs

  -- The names that stand in an invalid header.
  abbrev pub name_if_invalid : List ℕ → Option Name → Option Value → List (List ℕ)
  name_if_invalid n (some _) (some _) = []
  name_if_invalid n (some _) none = n ∷ []
  name_if_invalid n none v = n ∷ []

  abbrev pub invalid : List Header → List (List ℕ)
  invalid [] = []
  invalid ((n, v) ∷ hs) = name_if_invalid n (header_name n) (header_value v) ++ invalid hs

  -- A builder holds the headers of a map with further values behind them.
  abbrev Holds : Option Map → Map → ℕ → (Name → List Value) → Type 0
  Holds parts m n more =
      (m' : Map) × (parts ≡ some m')
      × (len m' ≤ len m + n)
      × ((k : Name) → get_all m' k ≡ get_all m k ++ more k)

  unchanged : (b : Builder http) (m : Map) → b.parts ≡ some m → Holds b.parts m 1 (λ k. [])
  unchanged b m e = (m, e, omega arith, λ k. sym (append-nil (get_all m k)))

  add_header-Holds :
      (b : Builder http) (m : Map) (s : List ℕ) (n : Option Name) (v : Option Value)
      → b.parts ≡ some m
      → len m < capacity
      → Holds (add_header http b s n v).parts m 1 (λ k. value_of k n v)
  unfolding add_header
  add_header-Holds b m s (some n) (some v) e h =
      let (m', a, l, g) = try_append_some m n v h in (m', rw e a, omega (arith, l), g)
  add_header-Holds b m s (some n) none e h = unchanged b m e
  add_header-Holds b m s none v e h = unchanged b m e

  add_headers-Holds :
      (b : Builder http) (m : Map) (hs : List Header)
      → b.parts ≡ some m
      → len m + length hs ≤ capacity
      → Holds (add_headers http b hs).parts m (length hs) (λ k. values k hs)
  unfolding add_headers
  add_headers-Holds b m [] e h = (m, e, omega arith, λ k. sym (append-nil (get_all m k)))
  add_headers-Holds b m ((n, v) ∷ hs) e h =
      let (m1, e1, l1, g1) =
        add_header-Holds b m n (header_name n) (header_value v) e (omega arith) in
      let (m2, e2, l2, g2) =
        add_headers-Holds (add_header http b n (header_name n) (header_value v)) m1 hs e1
          (omega arith) in
      (
        m2,
        e2,
        omega arith,
        λ k.
            g2 k
            ∙ ap (λ l. l ++ values k hs) (g1 k)
            ∙ append_assoc (get_all m k) (value_of k (header_name n) (header_value v))
                (values k hs),
      )

  add_header-skipped :
      (b : Builder http) (s : List ℕ) (n : Option Name) (v : Option Value)
      → (add_header http b s n v).skipped ≡ b.skipped ++ name_if_invalid s n v
  unfolding add_header
  add_header-skipped b s (some n) (some v) = sym (append-nil b.skipped)
  add_header-skipped b s (some n) none = refl
  add_header-skipped b s none v = refl

  add_headers-skipped :
      (b : Builder http) (hs : List Header)
      → (add_headers http b hs).skipped ≡ b.skipped ++ invalid hs
  unfolding add_headers
  add_headers-skipped b [] = sym (append-nil b.skipped)
  add_headers-skipped b ((n, v) ∷ hs) =
      add_headers-skipped (add_header http b n (header_name n) (header_value v)) hs
      ∙ ap (λ l. l ++ invalid hs) (add_header-skipped b n (header_name n) (header_value v))
      ∙ append_assoc b.skipped (name_if_invalid n (header_name n) (header_value v)) (invalid hs)

  build_head-parts :
      (status : ℕ) (headers : List Header) (m : Map) (l : List (List ℕ))
      → http.from_u16 status ≡ some status
      → (add_headers http (builder http) headers).parts ≡ some m
      → (add_headers http (builder http) headers).skipped ≡ l
      → build_head http status headers ≡ (built status m, l)
  unfolding build_head status_or_500
  build_head-parts status headers m l code parts skip = rw (code, parts, skip) refl

  -- The head of a response with a status that can be sent, and its headers by name.
  abbrev pub Heads : ℕ → List Header → Type 0
  Heads status headers =
      (m : Map) × (build_head http status headers ≡ (built status m, invalid headers))
      × ((k : Name) → get_all m k ≡ values k headers)

  pub build_head-Heads :
      (status : ℕ) (headers : List Header)
      → 100 ≤ status
      → status ≤ 599
      → length headers ≤ capacity
      → Heads status headers
  build_head-Heads status headers low high h =
      let (m, parts, bound, got) =
        add_headers-Holds (builder http) empty headers refl (omega (arith, laws.len_empty)) in
      let skip = add_headers-skipped (builder http) headers in
      let code = laws.from_u16_some status low (omega arith) in
      (
        m,
        build_head-parts status headers m (invalid headers) code parts skip,
        λ k. got k ∙ rw (laws.get_all_empty k) refl,
      )

  -- An accepted start message with at most as many headers as a map has room for gives a response
  -- of exactly its status, never the plain 500 in its place. For each name it has the values of that
  -- name's valid headers in their order, repeated ones included, and the others are reported.
  build_head-keeps :
      (py : PyApi) (message : py.Obj) (status : ℕ) (headers : List Header)
      → parse_send_message py message ≡ ok (start status headers)
      → length headers ≤ capacity
      → (m : Map) × (build_head http status headers ≡ (built status m, invalid headers))
        × ((k : Name) → get_all m k ≡ values k headers)
  build_head-keeps py message status headers e h =
      let (low, high, rest) = parse_send_message_sound py message status headers e in
      build_head-Heads status headers low high h

-- Both log a request in the same way: once, if there is a hook or the access log is on, through the
-- hook where there is one. Only `log_access` counts that it attaches to the interpreter.
log_access-agrees :
    (hook : Option (Entry → Bool)) (enabled : Bool) (e : Entry) (m : Metrics)
    → (log_access hook enabled e m ≡ (log_access_task hook enabled e, m))
      ⊎ ((log_access hook enabled e m ≡ (log_access_task hook enabled e, inc c_attach m))
          × (length (log_access_task hook enabled e) ≡ 1))
unfolding log_access log_access_task
log_access-agrees none false e m = inl refl
log_access-agrees none true e m = inr (refl, refl)
log_access-agrees (some hook) enabled e m = inr (refl, refl)
