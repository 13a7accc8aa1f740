-- ===== src/Call/BridgeLaws.antt =====
-- Which path a call is set up on (src/asgi.rs).
use rustasgi.Base.{ℕ, ◌≡◌, refl, ◌↔◌, ◌⊎◌, ◌<◌, ◌≤◌, arith, true, Option, none, some, ok}
use rustasgi.Call.Bridge.{Bridge, Interpreter, install, at_least_3_10, version}

-- A version that is known, and at least 3.10.
abbrev IsModern : Option (ℕ × ℕ) → Type 0
IsModern info =
    (major : ℕ) × (minor : ℕ) × (info ≡ some (major, minor))
    × ((3 < major) ⊎ ((major ≡ 3) × (10 ≤ minor)))

at_least_3_10_iff : (info : Option (ℕ × ℕ)) → (at_least_3_10 (version info) ≡ true) ↔ IsModern info
at_least_3_10_iff none = ground arith
at_least_3_10_iff (some (major, minor)) =
    (λ h. (major, minor, refl, ground arith), λ (major', minor', same, late). ground arith)

installed_version :
    {Obj : Type 0} (i : Interpreter Obj) (b : Bridge Obj)
    → install i ≡ ok b
    → b.direct_queue ≡ at_least_3_10 (version i.version_info)
unfolding install
installed_version i b h = ground arith

-- An installed bridge takes the direct queue exactly if the interpreter's version is known and at
-- least 3.10; it takes the init coroutine also where the version cannot be read.
install-direct_queue :
    {Obj : Type 0} (i : Interpreter Obj) (b : Bridge Obj)
    → install i ≡ ok b
    → (b.direct_queue ≡ true) ↔ IsModern i.version_info
install-direct_queue i b h = rw (installed_version i b h) (at_least_3_10_iff i.version_info)
