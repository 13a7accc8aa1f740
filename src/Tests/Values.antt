-- ===== src/Tests/Values.antt =====
-- Enough of Python to run the bridge: numbers, texts, byte strings, lists and dictionaries.
use rustasgi.Base.{
  ℕ, ◌≡◌, ◌<◌, Bool, true, false, List, [], ◌∷◌, Option, none, some, ltb, if◌then◌else◌, arith,
}
use rustasgi.Python.{PyApi}
use Prim.Native.String.{String}
use text.Mathlib.Text.{◌==◌ as str_eq}

mutual
  pub data Value : Type 0 where
    nothing : Value
    number : ℕ → Value
    flag : Bool → Value
    string : String → Value
    byte_string : List ℕ → Value
    items : Values → Value
    dict : Fields → Value

  pub data Values : Type 0 where
    no_items : Values
    item : Value → Values → Values

  pub data Fields : Type 0 where
    no_fields : Fields
    field : String → Value → Fields → Fields

abbrev lookup : String → Fields → Option Value
lookup k no_fields = none
lookup k (field j v m) = if str_eq j k then some v else lookup k m

abbrev pub get_item : Value → String → Option Value
get_item (dict m) k = lookup k m
get_item _ k = none

abbrev pub text_of : Value → Option String
text_of (string s) = some s
text_of _ = none

abbrev pub u16_of : Value → Option ℕ
u16_of (number n) = if ltb n 65536 then some n else none
u16_of _ = none

abbrev pub flag_of : Value → Option Bool
flag_of (flag b) = some b
flag_of _ = none

abbrev all_items : Values → List (Option Value)
all_items no_items = []
all_items (item v vs) = some v ∷ all_items vs

abbrev pub items_of : Value → Option (List (Option Value))
items_of (items vs) = some (all_items vs)
items_of _ = none

abbrev pub bytes_of : Value → Option (List ℕ)
bytes_of (byte_string b) = some b
bytes_of _ = none

abbrev pub is_nothing : Value → Bool
is_nothing nothing = true
is_nothing _ = false

pub u16_of-bounded : (v : Value) (n : ℕ) → u16_of v ≡ some n → n < 65536
u16_of-bounded (number m) n h = ground arith
u16_of-bounded nothing n h = ground arith
u16_of-bounded (flag b) n h = ground arith
u16_of-bounded (string s) n h = ground arith
u16_of-bounded (byte_string b) n h = ground arith
u16_of-bounded (items vs) n h = ground arith
u16_of-bounded (dict m) n h = ground arith

abbrev pub toy : PyApi
toy = record {
  Obj = Value;
  get_item = get_item;
  extract_str = text_of;
  extract_u16 = u16_of;
  extract_bool = flag_of;
  try_iter = items_of;
  as_sequence = items_of;
  as_py_bytes = bytes_of;
  as_py_bytearray = λ v. none;
  is_none = is_nothing;
  extract_u16_bounded = u16_of-bounded;
}
