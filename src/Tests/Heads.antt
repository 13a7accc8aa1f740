-- ===== src/Tests/Heads.antt =====
-- The head of a response with a repeated and an invalid header, through a map that is a list.
use rustasgi.Base.{
  ℕ, ◌≤◌, ◌≡◌, refl, ap, ◌∙◌, sym, arith, Bool, List, [], ◌∷◌, ◌++◌, none, some, any, leb, length,
  length-append, ◌&&◌, ◌==◌, if◌then◌else◌,
}
use mathlib.Core.List.{append_assoc, append-nil}
use rustasgi.Base.Text.{codes, bytes_eq}
use rustasgi.Message.{Header}
use rustasgi.Response.Head.{HttpApi}
use rustasgi.Response.HeadLaws.{HttpLaws}
use rustasgi.Tests.Values.{
  Value, string, number, byte_string, items, no_items, item, dict, field, no_fields,
}

abbrev pub http : HttpApi
http = record {
  Name = List ℕ;
  Value = List ℕ;
  Map = List Header;
  from_u16 = λ s. if leb 100 s && leb s 999 then some s else none;
  header_name = λ n. if any (λ c. c == b' ') n then none else some n;
  header_value = λ v. some v;
  empty = [];
  try_append = λ m n v. some (m ++ (n, v) ∷ []);
}

abbrev pub same : List ℕ → List ℕ → Bool
same = bytes_eq

abbrev pub get_all : List Header → List ℕ → List (List ℕ)
get_all [] k = []
get_all ((n, v) ∷ m) k = (if same n k then v ∷ [] else []) ++ get_all m k

pub get_all-append :
    (m : List Header) (n v k : List ℕ)
    → get_all (m ++ (n, v) ∷ []) k ≡ get_all m k ++ (if same n k then v ∷ [] else [])
get_all-append [] n v k = append-nil (if same n k then v ∷ [] else [])
get_all-append ((n0, v0) ∷ m) n v k =
    ap (λ l. (if same n0 k then v0 ∷ [] else []) ++ l) (get_all-append m n v k)
    ∙ sym (
        append_assoc (if same n0 k then v0 ∷ [] else []) (get_all m k)
          (if same n k then v ∷ [] else []))

pub from_u16_some : (s : ℕ) → 100 ≤ s → s ≤ 999 → http.from_u16 s ≡ some s
from_u16_some s low high = ground arith

abbrev pub laws : HttpLaws http 100
laws = record {
  get_all = get_all;
  len = length;
  same = same;
  from_u16_some = from_u16_some;
  get_all_empty = λ n. refl;
  len_empty = refl;
  try_append_some = λ m n v room.
      (m ++ (n, v) ∷ [], refl, omega (arith, length-append m ((n, v) ∷ [])), get_all-append m n v);
}

abbrev pub pair : List ℕ → List ℕ → Value
pair n v = items (item (byte_string n) (item (byte_string v) no_items))

abbrev pub cookies : List Header
cookies =
    (codes "set-cookie", codes "a")
    ∷ (codes "x y", codes "1")
    ∷ (codes "set-cookie", codes "b")
    ∷ []

abbrev pub answer : Value
answer = dict (
    field "type" (string "http.response.start") (
      field "status" (number 201) (
        field "headers"
          (items (
            item (pair (codes "set-cookie") (codes "a")) (
              item (pair (codes "x y") (codes "1"))
                (item (pair (codes "set-cookie") (codes "b")) no_items))))
          no_fields)))
