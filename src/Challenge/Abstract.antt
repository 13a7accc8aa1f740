-- ===== src/Challenge/Abstract.antt =====
-- The challenge store by its answers alone (src/tls/challenge.rs): a quotient that forgets the order
-- and the representation of the entries, with the store's operations on it.
use mathlib.Core.Quot
use mathlib.Core.Quot.{Quot, Quot-set}
use mathlib.Core.List
use mathlib.Core.Option
use native.Mathlib.Nat.{ℕ_set}
use rustasgi.Base.{
  ℕ, ◌≡◌, refl, sym, ap, ◌∙◌, ◌↔◌, ◌&&◌, List, [], ◌∷◌, Option, none, some, if◌then◌else◌, arith,
}
use rustasgi.Base.Text.{bytes_eq}
use rustasgi.Challenge.{Entries, is_valid_token, insert, get, remove}
use rustasgi.Challenge.Laws.{get-insert, get-remove}

-- Two stores answer every lookup alike.
abbrev pub SameAnswers : Entries → Entries → Type 0
SameAnswers m n = (token : List ℕ) → get token m ≡ get token n

abbrev pub Store : Type 0
Store = Quot SameAnswers

-- What a task does to the store that all share.
pub data Op : Type 0 where
  inserts : (token : List ℕ) (auth : List ℕ) → Op
  removes : (token : List ℕ) → Op

unfoldable pub perform : Op → Entries → Entries
perform (inserts token auth) m = insert token auth m
perform (removes token) m = remove token m

pub answers_set : IsSet (Option (List ℕ))
answers_set = Option.is_set (List.is_set ℕ_set)

-- What the last of some operations on a token leaves for it; `none` if there is none.
abbrev pub or_else : Option (Option (List ℕ)) → Option (Option (List ℕ)) → Option (Option (List ℕ))
or_else (some a) _ = some a
or_else none b = b

abbrev pub touched : List ℕ → Op → Option (Option (List ℕ))
touched k (inserts token auth) =
    if is_valid_token token && bytes_eq token k then some (some auth) else none
touched k (removes token) = if bytes_eq token k then some none else none

abbrev pub last : List ℕ → List Op → Option (Option (List ℕ))
last k [] = none
last k (op ∷ ops) = or_else (last k ops) (touched k op)

abbrev pub left_by : Option (Option (List ℕ)) → Option (List ℕ) → Option (List ℕ)
left_by (some a) _ = a
left_by none before = before

get-perform :
    (k : List ℕ) (op : Op) (m : Entries) → get k (perform op m) ≡ left_by (touched k op) (get k m)
unfolding perform
get-perform k (inserts token auth) m = ground (arith, get-insert token k auth m)
get-perform k (removes token) m = ground (arith, get-remove token k m)

pub perform-SameAnswers :
    (op : Op) (m n : Entries) → SameAnswers m n → SameAnswers (perform op m) (perform op n)
perform-SameAnswers op m n h k =
    get-perform k op m ∙ ap (left_by (touched k op)) (h k) ∙ sym (get-perform k op n)

-- A lookup, and an operation, on the quotient.
unfoldable pub answer : List ℕ → Store → Option (List ℕ)
answer k = Quot.lift answers_set (get k) (λ m n h. h k)

unfoldable pub act : Op → Store → Store
act op =
    Quot.lift Quot-set (λ m. Quot.mk (perform op m))
      (λ m n h. Quot.sound (perform-SameAnswers op m n h))

unfoldable pub act_all : List Op → Store → Store
act_all [] s = s
act_all (op ∷ ops) s = act_all ops (act op s)

answer-act :
    (k : List ℕ) (op : Op) (s : Store) → answer k (act op s) ≡ left_by (touched k op) (answer k s)
unfolding answer act
answer-act k op = Quot.ind (λ s. answers_set _ _) (λ m. get-perform k op m)

left_by-or_else :
    (a b : Option (Option (List ℕ))) (c : Option (List ℕ))
    → left_by (or_else a b) c ≡ left_by a (left_by b c)
left_by-or_else (some a) b c = refl
left_by-or_else none b c = refl

-- After any operations, a token has the answer that the last of them on that token leaves.
answer-act_all :
    (k : List ℕ) (ops : List Op) (s : Store)
    → answer k (act_all ops s) ≡ left_by (last k ops) (answer k s)
unfolding act_all
answer-act_all k [] s = refl
answer-act_all k (op ∷ ops) s =
    answer-act_all k ops (act op s)
    ∙ ap (left_by (last k ops)) (answer-act k op s)
    ∙ sym (left_by-or_else (last k ops) (touched k op) (answer k s))

-- The answers determine the abstract store.
Store-ext : (s t : Store) → ((k : List ℕ) → answer k s ≡ answer k t) → s ≡ t
unfolding answer
Store-ext =
    Quot.ind (λ s. hlevel (Quot-set {r = SameAnswers}))
      (λ m. Quot.ind (λ t. hlevel (Quot-set {r = SameAnswers})) (λ n h. Quot.sound h))

-- Two sequences of insertions and removals by any tasks lead from a store to the same store, as far
-- as lookups can tell, exactly if for each token the last operations on it leave the same answer:
-- the order between different tokens and what was overwritten are forgotten, and nothing else.
pub act_all_iff :
    (ops others : List Op) (s : Store)
    → (act_all ops s ≡ act_all others s)
      ↔ ((k : List ℕ) → left_by (last k ops) (answer k s) ≡ left_by (last k others) (answer k s))
act_all_iff ops others s = (
  λ e k. sym (answer-act_all k ops s) ∙ ap (answer k) e ∙ answer-act_all k others s,
  λ h.
      Store-ext (act_all ops s) (act_all others s)
        (λ k. answer-act_all k ops s ∙ h k ∙ sym (answer-act_all k others s)),
)
