-- ===== src/Server/WatchLaws.antt =====
-- What the background tasks of the worker do over all their ticks (src/server.rs).
use rustasgi.Base.{
  length-append, ℕ, ◌+◌, ◌≤◌, ◌≡◌, refl, ap, ◌∙◌, Bool, true, false, not, ◌&&◌, ◌||◌, List, [], ◌∷◌,
  ◌++◌, Option, some, if◌then◌else◌, any, All, length, arith, Bool-cases, inl, inr,
}
use rustasgi.Server.Shutdown.{
  ShutdownKind, graceful, quick, Notify, Shutdown, is_quick, kind, trigger_all,
}
use rustasgi.Server.ShutdownLaws.{trigger_all-quick}
use rustasgi.Server.Watch.{
  Signal, term, quit, int, serve_done, watch_signals, Tick, Heart, alive_or_true, heartbeat_loop,
  CertTick, CertWatch, mtime_eq, cert_tick, cert_watcher,
}

-- A quick shutdown is asked for before the server is done.
abbrev pub asks_quick : List Signal → Bool
asks_quick [] = false
asks_quick (serve_done ∷ ss) = false
asks_quick (term ∷ ss) = asks_quick ss
asks_quick (_ ∷ ss) = true

watch_signals-quick :
    (b : Bool) (ss : List Signal) → any is_quick (watch_signals b ss) ≡ asks_quick ss
unfolding watch_signals
watch_signals-quick b [] = refl
watch_signals-quick b (serve_done ∷ ss) = refl
watch_signals-quick b (term ∷ ss) = ground (arith, watch_signals-quick true ss)
watch_signals-quick b (quit ∷ ss) = ground arith
watch_signals-quick b (int ∷ ss) = ground arith

watch_signals-once : (ss : List Signal) → length (watch_signals true ss) ≤ 1
unfolding watch_signals
watch_signals-once [] = omega arith
watch_signals-once (serve_done ∷ ss) = omega arith
watch_signals-once (term ∷ ss) = watch_signals-once ss
watch_signals-once (quit ∷ ss) = omega arith
watch_signals-once (int ∷ ss) = omega arith

watch_signals-twice : (ss : List Signal) → length (watch_signals false ss) ≤ 2
unfolding watch_signals
watch_signals-twice [] = omega arith
watch_signals-twice (serve_done ∷ ss) = omega arith
watch_signals-twice (term ∷ ss) = omega (arith, watch_signals-once ss)
watch_signals-twice (quit ∷ ss) = omega (arith, watch_signals-once ss)
watch_signals-twice (int ∷ ss) = omega (arith, watch_signals-once ss)

-- Whatever signals come before the server is done, the shutdown that they leave is quick exactly if
-- one of them was SIGQUIT or SIGINT, also behind a SIGTERM, and there are at most two triggers.
watch_signals-kind :
    (n : Notify) (ss : List Signal) (s : Shutdown n)
    → s.quick_flag ≡ false
    → (kind n (trigger_all n (watch_signals false ss) s)
        ≡ (if asks_quick ss then quick else graceful))
      × (length (watch_signals false ss) ≤ 2)
unfolding kind
watch_signals-kind n ss s h = (
  ground (arith, trigger_all-quick n (watch_signals false ss) s, watch_signals-quick false ss),
  watch_signals-twice ss,
)

-- The ticks that find no shutdown, no lost parent and a live worker.
abbrev pub is_calm : Tick → Bool
is_calm t = not t.is_set && not t.orphaned && alive_or_true t.is_alive

-- What the loop triggers at the tick that ends it.
abbrev pub verdict : Option ShutdownKind → Tick → Option ShutdownKind
verdict before t = if t.is_set then before else if t.orphaned then some quick else some graceful

-- The heartbeat notifies once for each calm tick and triggers nothing; at the first other tick it
-- ends, whatever would follow: a lost parent is a quick shutdown, a worker that is not alive is a
-- graceful one, and is notified once more.
pub heartbeat_loop-ends :
    (h : Heart) (ts us : List Tick) (t : Tick)
    → All (λ c. is_calm c ≡ true) ts
    → is_calm t ≡ false
    → let last : ℕ = if t.is_set || t.orphaned then 0 else 1 in
      heartbeat_loop h (ts ++ t ∷ us)
      ≡ record { notified = h.notified + length ts + last; triggered = verdict h.triggered t }
unfolding heartbeat_loop
heartbeat_loop-ends h [] us t c bad = ground arith
heartbeat_loop-ends h (s ∷ ts) us t (c, cs) bad =
    ground (arith, heartbeat_loop-ends (record h { notified = h.notified + 1 }) ts us t cs bad)

-- The files have these modification times, and no shutdown is set.
abbrev pub Steady : ℕ → ℕ → CertTick → Type 0
Steady c k t = (t.is_set ≡ false) × (t.cert_mtime ≡ some c) × (t.key_mtime ≡ some k)

-- The reloads that a failing one needs until one succeeds.
abbrev pub tries : List CertTick → ℕ
tries [] = 0
tries (t ∷ ts) = if t.reload_ok then 1 else 1 + tries ts

cert_watcher-settled :
    (c k : ℕ) (w : CertWatch) (ts : List CertTick)
    → w.last_cert ≡ some c
    → w.last_key ≡ some k
    → All (Steady c k) ts
    → cert_watcher w ts ≡ w
unfolding cert_watcher
cert_watcher-settled c k w [] lc lk h = refl
cert_watcher-settled c k w (t ∷ ts) lc lk (h, hs) =
    ground (arith, cert_watcher-settled c k w ts lc lk hs)

cert_tick-good :
    (c k : ℕ) (w : CertWatch) (t : CertTick)
    → mtime_eq (some c) w.last_cert ≡ false
    → Steady c k t
    → t.reload_ok ≡ true
    → cert_tick w t
      ≡ record { last_cert = some c; last_key = some k; tried = w.tried ++ (some c, some k) ∷ [] }
cert_tick-good c k w t d h good = unfold cert_tick in ground arith

cert_tick-bad :
    (c k : ℕ) (w : CertWatch) (t : CertTick)
    → mtime_eq (some c) w.last_cert ≡ false
    → Steady c k t
    → t.reload_ok ≡ false
    → cert_tick w t ≡ record w { tried = w.tried ++ (some c, some k) ∷ [] }
cert_tick-bad c k w t d h bad = unfold cert_tick in ground arith

cert_watcher-step :
    (w : CertWatch) (t : CertTick) (ts : List CertTick)
    → t.is_set ≡ false
    → cert_watcher w (t ∷ ts) ≡ cert_watcher (cert_tick w t) ts
cert_watcher-step w t ts h = unfold cert_watcher in ground arith

-- After the certificate file has changed, the watcher tries to reload at each tick until a reload
-- succeeds, and then not again while the files stay as they are.
pub cert_watcher-retries :
    (c k : ℕ) (w : CertWatch) (ts : List CertTick)
    → mtime_eq (some c) w.last_cert ≡ false
    → All (Steady c k) ts
    → length (cert_watcher w ts).tried ≡ length w.tried + tries ts
cert_watcher-retries c k w [] d h = unfold cert_watcher in omega arith
cert_watcher-retries c k w (t ∷ ts) d (h, hs) = elim (Bool-cases t.reload_ok) [
  | inl good ↦
      ap (λ (v : CertWatch). length v.tried)
        (cert_watcher-step w t ts h.0
          ∙ ap (λ v. cert_watcher v ts) (cert_tick-good c k w t d h good)
          ∙ cert_watcher-settled c k _ ts refl refl hs)
      ∙ ground (arith, length-append w.tried ((some c, some k) ∷ []))
  | inr bad ↦
      ap (λ (v : CertWatch). length v.tried)
        (cert_watcher-step w t ts h.0 ∙ ap (λ v. cert_watcher v ts) (cert_tick-bad c k w t d h bad))
      ∙ cert_watcher-retries c k (record w { tried = w.tried ++ (some c, some k) ∷ [] }) ts d hs
      ∙ ground (arith, length-append w.tried ((some c, some k) ∷ []))
]
