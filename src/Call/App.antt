-- ===== src/Call/App.antt =====
-- src/asgi.rs, `_call_app` of the bridge's Python text: an application of ASGI 3, which is called with
-- the scope and both channel ends, or of ASGI 2, which is called with the scope and gives an instance.
use rustasgi.Base.{Bool, List, [], ◌∷◌, if◌then◌else◌, Result, ok, err}

-- What Python raises, as far as `except TypeError` tells it apart.
pub data Raised (E : Type 0) : Type 0 where
  type_error : Raised E
  other : E → Raised E

-- An application, by what `asyncio` and `inspect` say of it and what the calls of it give.
pub record App (V E : Type 0) : Type 0 where
  pub is_coroutine_function : Bool
  -- `isfunction(app) or ismethod(app) or isbuiltin(app)`.
  pub is_function : Bool
  -- `app(scope, receive, send)` and `app(scope)`.
  pub call_three : Result (Raised E) V
  pub call_scope : Result (Raised E) V
  -- `instance(receive, send)`.
  pub call_instance : V → Result (Raised E) V
  pub is_awaitable : V → Bool
  -- `await value`.
  pub await_value : V → Result (Raised E) (Unit {0})

-- The calls that are made, in their order.
pub data Act (V : Type 0) : Type 0 where
  called_three : Act V
  called_scope : Act V
  called_instance : V → Act V
  awaited : V → Act V

module _ {V E : Type 0} (app : App V E) where
  open app use {
    is_coroutine_function, is_function, call_three, call_scope, call_instance, is_awaitable,
    await_value,
  }

  -- The calls of a part of the body, and how it ends.
  abbrev pub Run : Type 0 → Type 0
  Run A = List (Act V) × Result (Raised E) A

  abbrev pub before : {A : Type 0} → Act V → Run A → Run A
  before a (acts, r) = (a ∷ acts, r)

  awaiting : V → Run (Unit {0})
  awaiting v = (awaited v ∷ [], await_value v)

  -- `if inspect.isawaitable(result): await result`, and otherwise `raise TypeError(..)`.
  await_result : Result (Raised E) V → Run (Unit {0})
  unfolding awaiting
  await_result (err e) = ([], err e)
  await_result (ok v) = if is_awaitable v then awaiting v else ([], err type_error)

  -- `instance = app(scope)`, `result = instance(receive, send)`.
  double_call : Result (Raised E) V → Run (Unit {0})
  unfolding await_result
  double_call (err e) = (called_scope ∷ [], err e)
  double_call (ok instance_) =
      before called_scope
        (before (called_instance instance_) (await_result (call_instance instance_)))

  -- `await app(scope, receive, send)`.
  coroutine_call : Result (Raised E) V → Run (Unit {0})
  unfolding awaiting
  coroutine_call (err e) = (called_three ∷ [], err e)
  coroutine_call (ok v) = before called_three (awaiting v)

  -- A callable object, with the fallback on a TypeError.
  object_call : Result (Raised E) V → Run (Unit {0})
  unfolding await_result double_call
  object_call (ok v) = before called_three (await_result (ok v))
  object_call (err type_error) = before called_three (double_call call_scope)
  object_call (err (other e)) = (called_three ∷ [], err (other e))

  unfoldable pub call_app : Run (Unit {0})
  unfolding coroutine_call double_call object_call
  call_app =
      if is_coroutine_function
      then coroutine_call call_three
      else if is_function
      then double_call call_scope
      else object_call call_three
