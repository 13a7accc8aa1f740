-- ===== src/Server/Watch.antt =====
-- src/server.rs: `watch_signals`, `heartbeat_loop` and `cert_watcher`, each as a loop over what its
-- `select!` or ticker yields.
use rustasgi.Base.{
  ℕ, ◌+◌, Bool, true, false, not, ◌&&◌, ◌||◌, List, [], ◌∷◌, ◌++◌, Option, none, some,
  if◌then◌else◌, ◌==◌,
}
use rustasgi.Server.Shutdown.{ShutdownKind, graceful, quick}

-- What the signal watcher's select yields: SIGTERM, SIGQUIT, SIGINT, or the change of `done`.
pub data Signal : Type 0 where
  term quit int serve_done : Signal

-- The kinds that the watcher triggers, in order, from its variable `triggered`. The branch of
-- SIGTERM is disabled once a shutdown has been triggered.
unfoldable pub watch_signals : Bool → List Signal → List ShutdownKind
watch_signals triggered [] = []
watch_signals triggered (serve_done ∷ ss) = []
watch_signals triggered (term ∷ ss) =
    let rest = watch_signals true ss in if triggered then rest else graceful ∷ rest
watch_signals triggered (quit ∷ ss) =
    let rest = watch_signals true ss in if triggered then quick ∷ [] else quick ∷ rest
watch_signals triggered (int ∷ ss) =
    let rest = watch_signals true ss in if triggered then quick ∷ [] else quick ∷ rest

-- One tick of the heartbeat: what it reads.
pub record Tick : Type 0 where
  pub is_set : Bool
  pub orphaned : Bool
  -- `is_alive()`: `none` if it raised or gave no bool.
  pub is_alive : Option Bool

abbrev pub alive_or_true : Option Bool → Bool
alive_or_true none = true
alive_or_true (some b) = b

-- How often `notify()` was called, and the shutdown that the loop triggered at its end.
pub record Heart : Type 0 where
  pub notified : ℕ
  pub triggered : Option ShutdownKind

-- One tick: whether the loop goes on.
beat : Heart → Tick → Heart × Bool
beat h t =
    if t.is_set
    then (h, false)
    else if t.orphaned
    then (record h { triggered = some quick }, false)
    else if alive_or_true t.is_alive
    then (record h { notified = h.notified + 1 }, true)
    else (record { notified = h.notified + 1; triggered = some graceful }, false)

unfoldable pub heartbeat_loop : Heart → List Tick → Heart
unfolding beat
heartbeat_loop h [] = h
heartbeat_loop h (t ∷ ts) =
    let (h', more) = beat h t in let rest = heartbeat_loop h' ts in if more then rest else h'

-- One tick of the certificate watcher: the flag, the modification times, and whether a reload, if
-- one is tried, succeeds.
pub record CertTick : Type 0 where
  pub is_set : Bool
  pub cert_mtime : Option ℕ
  pub key_mtime : Option ℕ
  pub reload_ok : Bool

pub record CertWatch : Type 0 where
  pub last_cert : Option ℕ
  pub last_key : Option ℕ
  -- The pairs of modification times at which a reload was tried.
  pub tried : List (Option ℕ × Option ℕ)

abbrev pub mtime_eq : Option ℕ → Option ℕ → Bool
mtime_eq none none = true
mtime_eq (some a) (some b) = a == b
mtime_eq _ _ = false

abbrev is_some : Option ℕ → Bool
is_some none = false
is_some (some _) = true

-- `changed && cert_mtime.is_some() && key_mtime.is_some()`.
abbrev pub wants_reload : CertWatch → CertTick → Bool
wants_reload w t =
    (not (mtime_eq t.cert_mtime w.last_cert) || not (mtime_eq t.key_mtime w.last_key))
    && is_some t.cert_mtime
    && is_some t.key_mtime

unfoldable pub cert_tick : CertWatch → CertTick → CertWatch
cert_tick w t =
    if wants_reload w t
    then record {
      last_cert = if t.reload_ok then t.cert_mtime else w.last_cert;
      last_key = if t.reload_ok then t.key_mtime else w.last_key;
      tried = w.tried ++ (t.cert_mtime, t.key_mtime) ∷ [];
    }
    else w

unfoldable pub cert_watcher : CertWatch → List CertTick → CertWatch
unfolding cert_tick
cert_watcher w [] = w
cert_watcher w (t ∷ ts) = let rest = cert_watcher (cert_tick w t) ts in if t.is_set then w else rest
