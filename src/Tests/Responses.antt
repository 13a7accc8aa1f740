-- ===== src/Tests/Responses.antt =====
-- One request of src/server.rs, `handle_http`: a body fed, a start event, two chunks.
use rustasgi.Base.{◌≡◌, refl, Bool, true, false, List, [], ◌∷◌, Option, none, some, arith}
use rustasgi.Base.Text.{codes}
use rustasgi.Message.{ResponseEvent, start, body}
use rustasgi.Response.{Ready, Effect, outcome, state_of}
use rustasgi.Response.Stream.{Pump, pump}
use rustasgi.Response.Respond.{Script}
use rustasgi.Response.CountLaws.{pump_counts}

abbrev idle : Ready
idle = record { recv = none; app = none; fed = none; deadline = false; client_gone = false }

abbrev yields : Option ResponseEvent → Ready
yields e = record idle { recv = some e }

abbrev two_starts : List Ready
two_starts = record idle { fed = some true } ∷ yields (some (start 201 [])) ∷ []

abbrev two_chunks : List Ready
two_chunks =
    yields (some (body (codes "ab") true)) ∷ idle ∷ yields (some (body (codes "c") false)) ∷ []

abbrev pub script : Script
script = record { starts = two_starts; turns = two_chunks; poll = none; reaped = some true }

-- The state of the task before its first turn.
abbrev first_pump : Bool → Pump
first_pump is_head = record {
  is_head = is_head;
  sent = [];
  bytes_sent = 0;
  feeding = true;
  streaming = true;
  app_done = false;
  app_logged = false;
  disconnected = false;
  effects = [];
}

abbrev late : Ready
late = record idle { deadline = true }

abbrev pub late_script : Script
late_script = record script { starts = idle ∷ late ∷ []; turns = idle ∷ late ∷ [] }

abbrev returns_first : Ready
returns_first = record idle { app = some true }

pump_counts_example :
    (outcome (pump (first_pump true) two_chunks) ≡ some tt)
    × ((state_of (pump (first_pump true) two_chunks)).bytes_sent ≡ 3)
pump_counts_example =
    pump_counts (first_pump true) two_chunks ((refl, refl), ((refl, refl), ((refl, refl), tt)))
      (omega arith)

abbrev pub all_effects : List Effect
all_effects =
    Effect.spawn_reaper false ∷ Effect.log_access 201 3 ∷ Effect.drop_guard ∷ Effect.traceback ∷ []
