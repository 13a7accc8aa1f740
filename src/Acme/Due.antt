-- ===== src/Acme/Due.antt =====
-- src/acme/renewal.rs: the arithmetic of `should_renew`.
use rustasgi.Base.{ℕ, zero, suc, ◌+◌, ◌-◌, ◌/◌, ◌^◌, Bool, true, false, if◌then◌else◌, ltb, leb}

-- `i64`, within its bounds.
pub data ℤ : Type 0 where
  pos negsuc : ℕ → ℤ

-- `expiry_secs - now_secs`.
unfoldable pub minus : ℤ → ℕ → ℤ
minus (pos a) b = if leb b a then pos (a - b) else negsuc (b - suc a)
minus (negsuc a) b = negsuc (a + b)

abbrev pub negate : ℕ → ℤ
negate zero = pos 0
negate (suc n) = negsuc n

-- `remaining_secs / 86400`, which truncates towards zero.
unfoldable pub whole_days : ℤ → ℤ
whole_days (pos a) = pos (a / 86400)
whole_days (negsuc a) = negate (suc a / 86400)

-- `threshold_days as i64`.
unfoldable pub as_i64 : ℕ → ℤ
as_i64 t = if ltb t (2 ^ 63) then pos t else negsuc (2 ^ 64 - suc t)

unfoldable pub below : ℤ → ℤ → Bool
below (pos a) (pos b) = ltb a b
below (pos a) (negsuc b) = false
below (negsuc a) (pos b) = true
below (negsuc a) (negsuc b) = ltb b a

unfoldable pub is_due : ℤ → ℕ → ℕ → Bool
is_due expiry_secs now_secs threshold_days =
    below (whole_days (minus expiry_secs now_secs)) (as_i64 threshold_days)
