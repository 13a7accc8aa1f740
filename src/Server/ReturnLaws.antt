-- ===== src/Server/ReturnLaws.antt =====
-- A worker that shuts down can always finish its requests and then return (src/server.rs, `serve`).
use rustasgi.Base.{Bool, true, false, ℕ, ◌≡◌, Option}
use rustasgi.Server.Serve.{
  Stage, serving, joining, draining, reporting, aborting, finished, Serve, Step, connections, Reach,
  here, next,
}
use rustasgi.Server.Advance.{accepted}

module _ (n : ℕ) where
  -- Steps in front of a run.
  before : {s t u : Serve} → Step n s t → Reach n t u → Reach n s u
  before st here = next here st
  before st (next r last) = next (before st r) last

  abbrev Finishes : Serve → Type 0
  Finishes s =
      (t : Serve) × (r : Option ℕ) × Reach n s t
      × (t.stage ≡ aborting r)
      × (connections t ≡ 0)
      × (t.worker.streaming ≡ 0)
      × (accepted t ≡ accepted s)

-- Behind the wake-up and in front of the abort of the connections.
abbrev pub is_finishing : Stage → Bool
is_finishing serving = false
is_finishing (joining kind) = true
is_finishing draining = true
is_finishing reporting = true
is_finishing (aborting r) = false
is_finishing (finished r) = false
