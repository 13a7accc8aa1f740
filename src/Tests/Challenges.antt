-- ===== src/Tests/Challenges.antt =====
-- Two orders of what two orders of certificates do to the challenge store.
use mathlib.Core.Quot
use rustasgi.Base.{ℕ, ◌≡◌, ◌↔◌, List, [], ◌∷◌}
use rustasgi.Base.Text.{codes}
use rustasgi.Challenge.Abstract.{Store, Op, act_all, answer, left_by, last, act_all_iff}

abbrev empty : Store
empty = Quot.mk []

abbrev in_turn : List Op
in_turn =
    Op.inserts (codes "a") (codes "a.key")
    ∷ Op.removes (codes "a")
    ∷ Op.inserts (codes "b") (codes "b.key")
    ∷ []

abbrev at_once : List Op
at_once =
    Op.inserts (codes "b") (codes "old.key")
    ∷ Op.inserts (codes "a") (codes "a.key")
    ∷ Op.inserts (codes "b") (codes "b.key")
    ∷ Op.removes (codes "a")
    ∷ []

act_all_iff_example : (act_all in_turn empty ≡ act_all at_once empty) ↔ (
    (k : List ℕ)
    → left_by (last k in_turn) (answer k empty) ≡ left_by (last k at_once) (answer k empty))
act_all_iff_example = act_all_iff in_turn at_once empty
