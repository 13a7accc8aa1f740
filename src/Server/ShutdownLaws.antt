-- ===== src/Server/ShutdownLaws.antt =====
-- Who is woken by a shutdown, and of which kind it is (src/server.rs).
use rustasgi.Base.{
  ℕ, ◌≡◌, refl, ap, ◌∙◌, true, false, ◌||◌, List, [], ◌∷◌, if◌then◌else◌, any, arith,
}
use rustasgi.Server.Shutdown.{
  ShutdownKind, graceful, quick, Notify, Shutdown, is_quick, trigger, is_set, kind, wait,
  trigger_all,
}

module _ (n : Notify) where
  trigger_all-set :
      (ks : List ShutdownKind) (s : Shutdown n)
      → s.flag ≡ true
      → ((trigger_all n ks s).flag ≡ true) × ((trigger_all n ks s).notify ≡ s.notify)
  unfolding trigger_all
  trigger_all-set [] s h = (h, refl)
  trigger_all-set (k ∷ ks) s h =
      let ih = trigger_all-set ks (trigger n k s) refl in (ih.0, ih.1 ∙ same)
    where
      same : (trigger n k s).notify ≡ s.notify
      same = ground arith

  pub trigger_all-quick :
      (ks : List ShutdownKind) (s : Shutdown n)
      → (trigger_all n ks s).quick_flag ≡ (any is_quick ks || s.quick_flag)
  unfolding trigger_all
  trigger_all-quick [] s = refl
  trigger_all-quick (k ∷ ks) s = trigger_all-quick ks (trigger n k s) ∙ ground arith

  -- A shutdown that is triggered at least once stays set, and it is quick exactly if one of the
  -- triggers was, in whatever order they came.
  pub trigger_all-kind :
      (k : ShutdownKind) (ks : List ShutdownKind) (s : Shutdown n)
      → s.quick_flag ≡ false
      → (is_set n (trigger_all n (k ∷ ks) s) ≡ true)
        × (kind n (trigger_all n (k ∷ ks) s) ≡ (if any is_quick (k ∷ ks) then quick else graceful))
  unfolding is_set kind
  trigger_all-kind k ks s h = (
    unfold trigger_all in (trigger_all-set ks (trigger n k s) refl).0,
    ground (arith, trigger_all-quick (k ∷ ks) s),
  )

  -- A task that waits when the first trigger comes is woken, whatever triggers follow.
  pub trigger_all-wakes :
      (t : ℕ) (k : ShutdownKind) (ks : List ShutdownKind) (s : Shutdown n)
      → s.flag ≡ false
      → n.is_woken (trigger_all n (k ∷ ks) (wait n t s)).notify t ≡ true
  unfolding trigger_all wait
  trigger_all-wakes t k ks s h =
      ap (λ m. n.is_woken m t) (trigger_all-set ks (trigger n k (wait n t s)) refl).1
      ∙ rw h
          (ground (arith, n.notify_wakes (n.register s.notify t) t, n.register_waits s.notify t t))

  -- A task that begins to wait after the first trigger is never woken, whatever triggers follow:
  -- `wait` does not read the flag.
  pub trigger_all-wait_lost :
      (t : ℕ) (ks : List ShutdownKind) (s : Shutdown n)
      → s.flag ≡ true
      → n.is_woken (trigger_all n ks (wait n t s)).notify t ≡ false
  unfolding wait
  trigger_all-wait_lost t ks s h =
      ap (λ m. n.is_woken m t) (trigger_all-set ks (wait n t s) h).1
      ∙ ground (arith, n.register_woken s.notify t t)
