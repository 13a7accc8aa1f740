-- ===== src/Python.antt =====
-- The Python objects that the bridge reads, through the operations of PyO3 that src/asgi.rs and
-- src/ws.rs call. PyO3 and the interpreter are not modelled: their operations are the fields.
use rustasgi.Base.{ℕ, ◌<◌, ◌≡◌, Bool, List, Option, some}
use Prim.Native.String.{String}

-- A Python exception as the code raises it: its class and text, the two texts with a value in
-- them as constructors of their own, and an exception of the interpreter that `?` passes on.
pub data PyErr : Type 0 where
  value_error : String → PyErr
  os_error : String → PyErr
  runtime_error : String → PyErr
  invalid_status : ℕ → PyErr
  unsupported_type : String → PyErr
  raised : PyErr

pub record PyApi : Type 1 where
  pub Obj : Type 0
  -- `obj.get_item(key)`; `none` is any exception, since every caller drops it.
  pub get_item : Obj → String → Option Obj
  pub extract_str : Obj → Option String
  pub extract_u16 : Obj → Option ℕ
  pub extract_bool : Obj → Option Bool
  -- `obj.try_iter()` run to its end: `none` inside is an item whose `next` raised.
  pub try_iter : Obj → Option (List (Option Obj))
  -- `obj.cast::<PySequence>()` with its items: the length is what `seq.len().unwrap_or(0)` gives,
  -- and an item is `none` where `seq.get_item(i)` raised.
  pub as_sequence : Obj → Option (List (Option Obj))
  pub as_py_bytes : Obj → Option (List ℕ)
  pub as_py_bytearray : Obj → Option (List ℕ)
  pub is_none : Obj → Bool
  -- `extract::<u16>` gives a 16-bit number.
  pub extract_u16_bounded : (o : Obj) (n : ℕ) → extract_u16 o ≡ some n → n < 65536
