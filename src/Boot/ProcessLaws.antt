-- ===== src/Boot/ProcessLaws.antt =====
-- What a worker process does around serving, on every way to its end (src/lib.rs).
use mathlib.Core.Path.{subst}
use mathlib.Core.List.{append-nil}
use rustasgi.Base.{◌≡◌, refl, List, [], ◌∷◌, ◌++◌, Option, none, some, Result, ok, err}
use rustasgi.Python.{PyApi}
use rustasgi.Cli.{ServerConfig}
use rustasgi.Acme.Task.{from_server_config}
use rustasgi.Acme.Renewal.{AcmeConfig}
use rustasgi.Lifespan.{Decision, serve_managed, serve_plain, fatal, lifespan_phase, parse}
use rustasgi.Boot.Process.{
  CleanupCalls, ProcessError, shut_down, when_decided, acme_events, Limits, Life, Event, Outcome,
  ServeConfig, serve_config, acme_setup, act_on, after_startup, serve_process_on, served,
  lifespan_shut_down, loop_stopped, loop_joined, tasks_cancelled, renewal_started, acme_without_tls,
}

-- The life of a process, and the events that may happen in each of its phases.
pub data Phase : Type 0 where
  setting_up serving lifespan_over tasks_over loop_over thread_over : Phase

module _ (py : PyApi) (F S : Type 0) where
  abbrev pub advance : Phase → Event py F S → Option Phase
  advance setting_up acme_without_tls = some setting_up
  advance setting_up (renewal_started cfg) = some setting_up
  advance setting_up (served cfg state) = some serving
  advance serving (lifespan_shut_down m) = some lifespan_over
  advance serving (tasks_cancelled c) = some tasks_over
  advance lifespan_over (tasks_cancelled c) = some tasks_over
  advance tasks_over loop_stopped = some loop_over
  advance loop_over loop_joined = some thread_over
  advance _ _ = none

  abbrev pub replay : Phase → List (Event py F S) → Option Phase
  replay p [] = some p
  replay p (e ∷ es) = elim (advance p e) [ none ↦ none | some q ↦ replay q es ]

  -- A process without an error has joined its loop's thread; one with an error has never served, and
  -- its loop's thread is left as it is.
  abbrev pub end_of : {E A : Type 0} → Result E A → Phase
  end_of (ok _) = thread_over
  end_of (err _) = setting_up

  -- The lifespan states that were served with, and the managers that were shut down.
  abbrev pub states : List (Event py F S) → List (Option py.Obj)
  states [] = []
  states (served cfg state ∷ es) = state ∷ states es
  states (_ ∷ es) = states es

  abbrev pub shut_downs : List (Event py F S) → List (Option py.Obj)
  shut_downs [] = []
  shut_downs (lifespan_shut_down m ∷ es) = m ∷ shut_downs es
  shut_downs (_ ∷ es) = shut_downs es

  -- The events of the ACME set-up: none of the later phases.
  abbrev IsSetup : List (Event py F S) → Type 0
  IsSetup before =
      (es : List (Event py F S))
      → (replay setting_up (before ++ es) ≡ replay setting_up es)
        × (states (before ++ es) ≡ states es)
        × (shut_downs (before ++ es) ≡ shut_downs es)

  acme_setup-IsSetup :
      (config : ServerConfig) (tls : Option S) → IsSetup (acme_setup py F S config tls)
  unfolding acme_setup acme_events
  acme_setup-IsSetup config tls = go (from_server_config config) tls
    where
      go : (o : Option AcmeConfig) (tls : Option S) → IsSetup (acme_events py F S o tls)
      go none tls es = (refl, refl, refl)
      go (some cfg) none es = (refl, refl, refl)
      go (some cfg) (some t) es = (refl, refl, refl)

  -- What a decision serves with, and whom it shuts down.
  abbrev pub serves_with : Decision py → List (Option py.Obj)
  serves_with (serve_managed state) = state ∷ []
  serves_with serve_plain = none ∷ []
  serves_with (fatal e) = []

  abbrev pub manages : Decision py → List (Option py.Obj)
  manages (serve_managed state) = state ∷ []
  manages _ = []

  abbrev IsClean : Decision py → Outcome py F S → Type 0
  IsClean d (r, es, cell) =
      (replay setting_up es ≡ some (end_of r))
      × (cell ≡ none)
      × (states es ≡ serves_with d)
      × (shut_downs es ≡ manages d)

  act_on-IsClean :
      (serve : ServeConfig S) (cleanup : CleanupCalls) (before : List (Event py F S))
      (d : Decision py)
      → IsSetup before
      → IsClean d (act_on py F S serve cleanup none before d)
  unfolding act_on after_startup shut_down
  act_on-IsClean serve cleanup before (fatal e) h =
      let p = h [] in
      (
        rw (← append-nil before) p.0,
        refl,
        rw (← append-nil before) p.1,
        rw (← append-nil before) p.2,
      )
  act_on-IsClean serve cleanup before serve_plain h = let p = h _ in (p.0, refl, p.1, p.2)
  act_on-IsClean serve cleanup before (serve_managed state) h = let p = h _ in (p.0, refl, p.1, p.2)

  abbrev Phased : Option (Outcome py F S) → Type 0
  Phased none = Unit
  Phased (some (r, es, cell)) = (replay setting_up es ≡ some (end_of r)) × (cell ≡ none)

  when_decided-Phased :
      (serve : ServeConfig S) (cleanup : CleanupCalls) (before : List (Event py F S))
      (o : Option (Decision py))
      → IsSetup before
      → Phased (when_decided py F S serve cleanup none before o)
  unfolding when_decided
  when_decided-Phased serve cleanup before none h = tt
  when_decided-Phased serve cleanup before (some d) h =
      let c = act_on-IsClean serve cleanup before d h in (c.0, c.1)

  serve_process_on-Phased :
      (config : ServerConfig) (l : Limits) (life : Life py F S) (tls : Result F (Option S))
      → Phased (serve_process_on py F S config l life none tls)
  unfolding serve_process_on
  serve_process_on-Phased config l life (err e) = (refl, refl)
  serve_process_on-Phased config l life (ok tls) =
      when_decided-Phased (serve_config py F S config tls l) life.cleanup
        (acme_setup py F S config tls)
        (lifespan_phase py (parse config.lifespan) life.steps life.polls)
        (acme_setup-IsSetup config tls)

  -- Whatever happens, the events of a process follow the phases of its life: it serves once, behind
  -- the set-up, and then shuts the lifespan down, cancels what is left, stops its loop and joins the
  -- thread, in this order, exactly if it returns without an error; if TLS or the lifespan fails,
  -- nothing of this happens and the loop's thread is left running. No lifespan manager is left behind.
  pub serve_process_on-phases :
      (config : ServerConfig) (l : Limits) (life : Life py F S) (tls : Result F (Option S))
      (r : Result (ProcessError py F S) (Unit {0})) (es : List (Event py F S))
      (cell : Option (Option py.Obj))
      → serve_process_on py F S config l life none tls ≡ some (r, es, cell)
      → (replay setting_up es ≡ some (end_of r)) × (cell ≡ none)
  serve_process_on-phases config l life tls r es cell h =
      subst Phased h (serve_process_on-Phased config l life tls)

  -- The application is served with the state that its lifespan startup captured, whose manager is
  -- shut down once behind it; without a lifespan it is served with no state and nothing is shut down;
  -- and if the startup's failure is fatal, neither happens.
  pub serve_process_on-managed :
      (config : ServerConfig) (l : Limits) (life : Life py F S) (tls : Option S) (d : Decision py)
      → lifespan_phase py (parse config.lifespan) life.steps life.polls ≡ some d
      → (r : Result (ProcessError py F S) (Unit {0})) × (es : List (Event py F S)) × (cell : Option
          (Option py.Obj))
        × (serve_process_on py F S config l life none (ok tls) ≡ some (r, es, cell))
        × (states es ≡ serves_with d)
        × (shut_downs es ≡ manages d)
  unfolding serve_process_on when_decided
  serve_process_on-managed config l life tls d h =
      let o =
        act_on py F S (serve_config py F S config tls l) life.cleanup none
          (acme_setup py F S config tls) d in
      let c =
        act_on-IsClean (serve_config py F S config tls l) life.cleanup
          (acme_setup py F S config tls) d (acme_setup-IsSetup config tls) in
      (o.0, o.1, o.2, rw h refl, c.2, c.3)
