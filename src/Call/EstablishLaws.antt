-- ===== src/Call/EstablishLaws.antt =====
-- The two ways to set up a call give the same one (src/asgi.rs).
use rustasgi.Base.{
  ◌≡◌, refl, ap, sym, Bool, true, false, not, ◌&&◌, ◌⊎◌, inl, inr, Option, Result, ok, err, ◌>>◌,
  guard, if◌then◌else◌,
}
use rustasgi.Request.Front.{RequestData}
use rustasgi.Call.Scope.{build_http_scope}
use rustasgi.Call.Establish.{
  Call, Calls, First, terminal, streaming, first_direct, first_legacy, direct, legacy,
  establish_http_call, request_queue_maxsize,
}
use Prim.Native.String.{String}

first_direct-legacy : (has_body : Bool) → first_direct has_body ≡ first_legacy (not has_body)
first_direct-legacy true = refl
first_direct-legacy false = refl

-- A result is this value if the test holds, and otherwise an error.
abbrev pub Decides {ℓ} : {A : Type ℓ} → Bool → A → Result String A → Type ℓ
Decides test a r = ((test ≡ true) × (r ≡ ok a)) ⊎ ((test ≡ false) × ((e : String) × (r ≡ err e)))

ok-Decides {ℓ} : {A : Type ℓ} {a b : A} → b ≡ a → Decides true a (ok b)
ok-Decides h = inl (refl, ap ok h)

guard-Decides {ℓ} :
    {A : Type ℓ} {a : A} (b : Bool) (e : String) {test : Bool} {rest : Result String A}
    → Decides test a rest
    → Decides (b && test) a (guard b e >> rest)
guard-Decides true e d = d
guard-Decides false e d = inr (refl, (e, refl))

module _ {Obj : Type 0} (lifespan_state : Option Obj) (req : RequestData) where
  abbrev pub the_call : Call Obj
  the_call = record {
    scope = build_http_scope lifespan_state req;
    first = if req.has_body then streaming else terminal;
    maxsize = request_queue_maxsize;
  }

  -- The Python calls that a path makes.
  abbrev pub needed : Bool → Calls → Bool
  needed true c =
      c.sink
      && (c.import_asyncio
          && (c.queue
              && (c.receive
                  && (c.send && (c.scope && (c.app_coroutine && (c.app_submitted && true)))))))
  needed false c =
      c.sink
      && (c.init_coroutine
          && (c.init_submitted
              && (c.init_done
                  && (c.extracted && (c.scope && (c.app_coroutine && (c.app_submitted && true)))))))

  -- Whichever way the interpreter's version chooses to set up a call, the call is the same one: its
  -- scope is that of the request, and `receive()` gives the terminal message first exactly if the
  -- request has no body. It is set up exactly if all Python calls on the way succeed, and otherwise
  -- there is an error.
  pub establish_http_call-Decides :
      (direct_queue : Bool) (c : Calls)
      → Decides
          (needed direct_queue c)
          the_call
          (establish_http_call lifespan_state req direct_queue c)
  unfolding establish_http_call direct legacy
  establish_http_call-Decides true c = guard-Decides c.sink _ (
      guard-Decides c.import_asyncio _ (
        guard-Decides c.queue _ (
          guard-Decides c.receive _ (
            guard-Decides c.send _ (
              guard-Decides c.scope _ (
                guard-Decides c.app_coroutine _
                  (guard-Decides c.app_submitted _ (ok-Decides refl))))))))
  establish_http_call-Decides false c = guard-Decides c.sink _ (
      guard-Decides c.init_coroutine _ (
        guard-Decides c.init_submitted _ (
          guard-Decides c.init_done _ (
            guard-Decides c.extracted _ (
              guard-Decides c.scope _ (
                guard-Decides c.app_coroutine _ (
                  guard-Decides c.app_submitted _ (
                    ok-Decides (
                      ap
                        (λ (f : First). record {
                          scope = build_http_scope lifespan_state req;
                          first = f;
                          maxsize = request_queue_maxsize;
                        })
                        (sym (first_direct-legacy req.has_body)))))))))))
