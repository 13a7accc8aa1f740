-- ===== src/Tests/Apps.antt =====
-- A class whose objects are ASGI 2 applications' instances: the call with three arguments fails.
use rustasgi.Base.{ℕ, suc, ◌≡◌, true, false, [], ◌∷◌, ok, err}
use rustasgi.Call.App.{App, type_error, call_app}
use rustasgi.Call.AppLaws.{awaits, count_calls, is_three, is_scope, call_app-version}

abbrev legacy_class : App ℕ ℕ
legacy_class = record {
  is_coroutine_function = false;
  is_function = false;
  call_three = err type_error;
  call_scope = ok 1;
  call_instance = λ i. ok (suc i);
  is_awaitable = λ v. true;
  await_value = λ v. ok tt;
}

call_app-version_example :
    let (acts, r) = call_app legacy_class in
    (r ≡ ok tt)
    × (awaits acts ≡ 2 ∷ [])
    × (count_calls is_three acts ≡ 1)
    × (count_calls is_scope acts ≡ 1)
call_app-version_example = call_app-version legacy_class
