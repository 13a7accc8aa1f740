-- ===== src/Call/ScopeLaws.antt =====
-- The two kinds of scope describe one request alike (src/asgi.rs, src/ws.rs, src/server.rs).
use rustasgi.Base.{ℕ, ◌≡◌, ◌↔◌, ◌⊎◌, inl, inr, refl, ap, List, [], ◌∷◌, Option, some, All}
use rustasgi.Request.Front.{HttpRequest, Place, Platform, request_data, version_str}
use rustasgi.Call.Scope.{
  ScopeValue, str_value, Scope, scope_get, build_http_scope, handshake_of, ws_scope, ws_version_str,
}
use Prim.Native.String.{String}

-- What both protocols define alike, except for the root path.
abbrev pub shared_keys : List String
shared_keys =
    "asgi" ∷ "http_version" ∷ "path" ∷ "raw_path" ∷ "query_string" ∷ "headers" ∷ "client" ∷ "server"
    ∷ "extensions" ∷ "state" ∷ []

str_value-inj :
    (Obj : Type 0) {a b : List ℕ} (x y : ScopeValue Obj)
    → x ≡ str_value a
    → y ≡ str_value b
    → x ≡ y
    → a ≡ b
str_value-inj Obj x y p q h = cc

versions-agree : (v : ℕ) → (v ≡ 10) ⊎ (v ≡ 11) → version_str v ≡ ws_version_str v
unfolding version_str
versions-agree v (inl h) = rw h refl
versions-agree v (inr h) = rw h refl

some-inj : {A : Type 0} (a b : A) → some a ≡ some b → a ≡ b
some-inj a b h = cc

module _ (io : Platform) {Obj : Type 0} where
  abbrev pub http_of : Option Obj → Place → HttpRequest → Scope Obj
  http_of state place req = build_http_scope state (request_data io place req)

  abbrev pub ws_of : Option Obj → Place → HttpRequest → Scope Obj
  ws_of state place req = ws_scope io state (handshake_of place.is_tls req) place

  -- A request over HTTP/1 has the same scope whether it is served over HTTP or upgraded, as far as
  -- the two protocols define it alike (versions, path, query, headers, both addresses, state); but
  -- the root paths agree only where the server has none, since a WebSocket scope never has it.
  pub scopes-agree :
      (state : Option Obj) (place : Place) (req : HttpRequest)
      → (req.version ≡ 10) ⊎ (req.version ≡ 11)
      → All
          (λ k. scope_get k (http_of state place req) ≡ scope_get k (ws_of state place req))
          shared_keys
        × ((scope_get "root_path" (http_of state place req)
              ≡ scope_get "root_path" (ws_of state place req))
            ↔ (place.root_path ≡ []))
  unfolding build_http_scope request_data ws_scope handshake_of
  scopes-agree state place req v = (
    (
      refl,
      (
        ap (λ t. some (str_value t)) (versions-agree req.version v),
        (refl, (refl, (refl, (refl, (refl, (refl, (refl, (refl, tt)))))))),
      ),
    ),
    (λ h. str_value-inj Obj _ _ refl refl (some-inj _ _ h), λ h. ap (λ t. some (str_value t)) h),
  )
