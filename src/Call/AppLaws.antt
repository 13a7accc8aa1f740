-- ===== src/Call/AppLaws.antt =====
-- Which applications are called how (src/asgi.rs, `_call_app`).
use rustasgi.Base.{
  ℕ, ◌+◌, ◌≡◌, Bool, not, ◌||◌, List, [], ◌∷◌, if◌then◌else◌, Result, ok, err, ◌>>=◌, arith,
}
use rustasgi.Call.App.{
  Raised, type_error, other, App, Act, called_three, called_scope, awaited, call_app,
}

pub data Version : Type 0 where
  asgi2 asgi3 : Version

-- Counted calls.
abbrev pub count_calls : {V : Type 0} → (Act V → ℕ) → List (Act V) → ℕ
count_calls w [] = 0
count_calls w (a ∷ acts) = w a + count_calls w acts

abbrev pub is_three : {V : Type 0} → Act V → ℕ
is_three called_three = 1
is_three _ = 0

abbrev pub is_scope : {V : Type 0} → Act V → ℕ
is_scope called_scope = 1
is_scope _ = 0

-- The values that are awaited.
abbrev pub awaits : {V : Type 0} → List (Act V) → List V
awaits [] = []
awaits (awaited v ∷ acts) = v ∷ awaits acts
awaits (_ ∷ acts) = awaits acts

module _ {V E : Type 0} (app : App V E) where
  -- A callable object is taken for one of ASGI 2 if the call of ASGI 3 raises a TypeError.
  abbrev pub by_call : Result (Raised E) V → Version
  by_call (ok v) = asgi3
  by_call (err type_error) = asgi2
  by_call (err (other e)) = asgi3

  abbrev pub version : Version
  version =
      if app.is_coroutine_function
      then asgi3
      else if app.is_function
      then asgi2
      else by_call app.call_three

  -- What an application of a version gives.
  abbrev pub gives : Version → Result (Raised E) V
  gives asgi3 = app.call_three
  gives asgi2 = app.call_scope >>= app.call_instance

  abbrev pub is_fit : V → Bool
  is_fit v = app.is_coroutine_function || app.is_awaitable v

  abbrev pub end_of : V → Result (Raised E) (Unit {0})
  end_of v = if is_fit v then app.await_value v else err type_error

  abbrev pub awaited_of : Result (Raised E) V → List V
  awaited_of (ok v) = if is_fit v then v ∷ [] else []
  awaited_of (err e) = []

  abbrev pub scopes : Version → ℕ
  scopes asgi2 = 1
  scopes asgi3 = 0

  -- An application ends as what it gives under its version ends when it is awaited, or with a
  -- TypeError if that cannot be awaited; that is awaited once and nothing else is. A coroutine
  -- function is called with all three arguments, any other function with the scope, and an object
  -- with all three and then, if that raises a TypeError, with the scope; each at most once.
  pub call_app-version :
      let (acts, r) = call_app app in
      (r ≡ (gives version >>= end_of))
      × (awaits acts ≡ awaited_of (gives version))
      × (count_calls is_three acts
          ≡ (if app.is_coroutine_function || not app.is_function then 1 else 0))
      × (count_calls is_scope acts ≡ scopes version)
  unfolding call_app
  call_app-version = (ground arith, ground arith, ground arith, ground arith)
