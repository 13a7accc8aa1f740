-- ===== src/Response/ExchangeLaws.antt =====
-- From the application's `send()` to the client (src/asgi.rs, src/server.rs).
use mathlib.Core.Path.{subst}
use rustasgi.Base.{
  ℕ, ◌≤◌, ◌≡◌, refl, sym, ap, ◌∙◌, Bool, true, false, List, [], ◌∷◌, ◌++◌, Option, some, map,
  length, All, Result, ok, err, arith, is_empty, if◌then◌else◌,
}
use rustasgi.Python.{PyErr, PyApi}
use rustasgi.Metrics.{Metrics}
use rustasgi.Message.{Header, ResponseEvent, start, body, parse_send_message}
use rustasgi.Message.Laws.{parse_send_message_sound}
use rustasgi.Sink.{Mpsc, Sink, Reply}
use rustasgi.Sink.Push.{http as http_kind, response_channel_bound, Move, send, fresh, run}
use rustasgi.Sink.Steps.{all_taken, all_given}
use rustasgi.Sink.Laws.{run-IsFifo}
use rustasgi.Sink.Sources.{Source, run-sources}
use rustasgi.Response.{Ready, Turn, again, done, outcome, state_of}
use rustasgi.Response.Start.{started, waiting, await_start}
use rustasgi.Response.StartLaws.{first_event, answer_of, await_start-first}
use rustasgi.Response.Stream.{pump}
use rustasgi.Response.StreamLaws.{events, content, is_complete, IsCalm, written, pump_sent}
use rustasgi.Response.Respond.{Script, enter}
use rustasgi.Response.Head.{HttpApi, built, build_head}
use rustasgi.Response.HeadLaws.{HttpLaws, values, build_head-Heads}
use rustasgi.Response.Exchange.{seen_behind, see, response, seen}

-- The body that a list of events stands for, and whether one of them ends it.
abbrev pub body_of : List ResponseEvent → List (List ℕ)
body_of es = content (map some es)

abbrev pub is_final : List ResponseEvent → Bool
is_final es = is_complete (map some es)

-- What follows the end of the body adds nothing.
body_of-append : (es fs : List ResponseEvent) → is_final es ≡ true → body_of (es ++ fs) ≡ body_of es
body_of-append [] fs h = cc
body_of-append (start status headers ∷ es) fs h = body_of-append es fs h
body_of-append (body chunk true ∷ es) fs h =
    ap (λ rest. if is_empty chunk then rest else chunk ∷ rest) (body_of-append es fs h)
body_of-append (body chunk false ∷ es) fs h = refl

events-first_event :
    (rs : List Ready) (e : Option ResponseEvent) (es : List (Option ResponseEvent))
    → events rs ≡ e ∷ es
    → first_event rs ≡ some e
events-first_event [] e es h = cc
events-first_event (r ∷ rs) e es h = ground (arith, events-first_event rs e es)

-- A start event can be sent.
abbrev pub CanSend : ResponseEvent → Type 0
CanSend (start status headers) = (100 ≤ status) × (status ≤ 599)
CanSend (body _ _) = Unit

module _ (py : PyApi) where
  -- Each `send` is of a Python message.
  abbrev pub IsMessage : Move ResponseEvent → Type 0
  IsMessage (send spawns parsed) = (o : py.Obj) × (parse_send_message py o ≡ parsed)
  IsMessage _ = Unit

  parsed-Source :
      (o : py.Obj) (spawns : Bool) (parsed : Result PyErr ResponseEvent)
      → parse_send_message py o ≡ parsed
      → Source CanSend (send spawns parsed)
  parsed-Source o spawns (ok (start status headers)) h =
      let (low, high, rest) = parse_send_message_sound py o status headers h in (low, high)
  parsed-Source o spawns (ok (body chunk more)) h = tt
  parsed-Source o spawns (err e) h = tt

  IsMessage-Source : (m : Move ResponseEvent) → IsMessage m → Source CanSend m
  IsMessage-Source (send spawns parsed) (o, h) = parsed-Source o spawns parsed h
  IsMessage-Source Move.poll h = tt
  IsMessage-Source Move.recv h = tt
  IsMessage-Source Move.disconnect h = tt
  IsMessage-Source Move.drop_receiver h = tt

  All-Source : (ms : List (Move ResponseEvent)) → All IsMessage ms → All (Source CanSend) ms
  All-Source [] h = tt
  All-Source (m ∷ ms) (h, hs) = (IsMessage-Source m h, All-Source ms hs)

done_of_outcome {ℓ κ} :
    {S : Type ℓ} {R : Type κ} (t : Turn S R) {r : R} → outcome t ≡ some r → t ≡ done (state_of t) r
done_of_outcome (again s) h = cc
done_of_outcome (done s r) h = cc

module _ (http : HttpApi) where
  behind_start :
      (has_body is_head : Bool) (s : Script) (status : ℕ) (headers : List Header) (m : http.Map)
      → outcome (await_start (waiting has_body) s.starts) ≡ some (started status headers)
      → (build_head http status headers).0 ≡ built status m
      → All IsCalm s.turns
      → seen http has_body is_head s
        ≡ response status m (written is_head (content (events s.turns)))
  unfolding seen enter
  behind_start has_body is_head s status headers m h b calm =
      let w = await_start (waiting has_body) s.starts in
      let p = enter has_body is_head (state_of w) in
      ap (seen_behind http has_body is_head s.turns) (done_of_outcome w h)
      ∙ ap (λ head. see http head (state_of (pump p s.turns)).sent) b
      ∙ ap (response status m) (pump_sent p s.turns calm)

module _ (http : HttpApi) (capacity : ℕ) (laws : HttpLaws http capacity) (py : PyApi)
    (M : Mpsc ResponseEvent response_channel_bound) where
  -- The events that the receiver got are a start of what the sends took.
  taken_all :
      (metrics : Metrics) (ms : List (Move ResponseEvent)) (sink : Sink M)
      (rs : List (Reply ResponseEvent))
      → run M http_kind (fresh M metrics) ms ≡ some (sink, rs)
      → (rest : List ResponseEvent) × (all_taken rs ≡ all_given rs ++ rest)
  taken_all metrics ms sink rs e =
      let (rest, h, more) = run-IsFifo M http_kind metrics ms sink rs e in (rest, h)

  -- A request from end to end: the application sends Python messages, whatever the interleaving of
  -- its sends with the request's loops; the loops get the first of the events, a start that has at
  -- most as many headers as a map has room for, in time, then others up to the end of the body, and
  -- the client does not go away. Then the client sees the status and, name by name, the valid
  -- headers of the first event that a send took, and the body of those that it took behind it: every
  -- chunk once and in order, and none for a HEAD request.
  pub exchange-seen :
      (has_body is_head : Bool) (s : Script) (metrics : Metrics) (ms : List (Move ResponseEvent))
      (sink : Sink M) (rs : List (Reply ResponseEvent)) (status : ℕ) (headers : List Header)
      (got : List ResponseEvent)
      → All (IsMessage py) ms
      → run M http_kind (fresh M metrics) ms ≡ some (sink, rs)
      → all_given rs ≡ start status headers ∷ got
      → events s.starts ≡ some (start status headers) ∷ []
      → events s.turns ≡ map some got
      → All (λ r. r.deadline ≡ false) s.starts
      → All IsCalm s.turns
      → is_final got ≡ true
      → length headers ≤ capacity
      → (later : List ResponseEvent) × (m : http.Map) × (all_taken rs
          ≡ start status headers ∷ later)
        × (seen http has_body is_head s ≡ response status m (written is_head (body_of later)))
        × ((n : http.Name) → laws.get_all m n ≡ values http capacity laws n headers)
  exchange-seen has_body is_head s metrics ms sink rs status headers got messages ran given starts
        turns in_time calm final fits =
      let (rest, taken) = taken_all metrics ms sink rs ran in
      let all = taken ∙ ap (λ es. es ++ rest) given in
      let can : All CanSend (start status headers ∷ got ++ rest) = subst (All CanSend) all (
        run-sources M http_kind CanSend (fresh M metrics) sink ms rs (All-Source py ms messages)
          ran) in
      let (m, built_so, by_name) =
        build_head-Heads http capacity laws status headers can.0.0 can.0.1 fits in
      let answered =
        await_start-first (waiting has_body) s.starts in_time
        ∙ ap answer_of (events-first_event s.starts (some (start status headers)) [] starts) in
      (
        got ++ rest,
        m,
        all,
        behind_start http has_body is_head s status headers m answered (ap (λ p. p.0) built_so) calm
            ∙ ap (λ b. response status m (written is_head b))
                (ap content turns ∙ sym (body_of-append got rest final)),
        by_name,
      )
