-- ===== src/Request/UpgradeLaws.antt =====
-- Which requests become WebSocket connections (src/ws.rs, src/server.rs).
use rustasgi.Base.{
  ℕ, ◌≡◌, refl, ap, ◌∙◌, Bool, true, false, ◌||◌, List, [], ◌∷◌, ◌++◌, Option, some, any, is_empty,
}
use rustasgi.Base.Text.{codes, bytes_eq_refl, to_ascii_lowercase}
use rustasgi.Base.Words.{join, all_without, split-join}
use rustasgi.Challenge.{Entries}
use rustasgi.Request.Front.{Front, HttpRequest, Place, Platform, bind_str, header_get}
use rustasgi.Request.Upgrade.{
  Upgrade, eq_ignore_ascii_case, switch, upgrade_ok, connection_ok, is_websocket_upgrade,
  upgrade_reply, upgrade, handle_request,
}

eq_ignore_ascii_case-lower :
    (a b : List ℕ) → to_ascii_lowercase a ≡ to_ascii_lowercase b → eq_ignore_ascii_case a b ≡ true
unfolding eq_ignore_ascii_case
eq_ignore_ascii_case-lower a b h = rw h (bytes_eq_refl (to_ascii_lowercase b))

-- An item of a list that passes a test.
any-middle {ℓ} :
    {A : Type ℓ} (p : A → Bool) (xs ys : List A) (x : A) → p x ≡ true → any p (xs ++ x ∷ ys) ≡ true
any-middle p [] ys x h = rw h refl
any-middle p (z ∷ xs) ys x h = rw (any-middle p xs ys x h) (or_true (p z))
  where
    or_true : (b : Bool) → (b || true) ≡ true
    or_true true = refl
    or_true false = refl

module _ (io : Platform) (trim : List ℕ → List ℕ) (derive_accept_key : List ℕ → List ℕ) where
  -- The value of a header, as a text.
  abbrev pub header_text : List ℕ → HttpRequest → Option (List ℕ)
  header_text name req = bind_str io (header_get name req.headers)

  -- A GET whose Upgrade is `websocket` and whose Connection has the item `upgrade` among others, each
  -- in any case, and which has a key, is answered by 101 with the accept key of that key, on every
  -- path, and also where plain HTTP is to be redirected to HTTPS or the path is a challenge's.
  pub handle_request-upgrade :
      (store : Entries) (place : Place) (req : HttpRequest) (protocol item key : List ℕ)
      (before behind : List (List ℕ)) (first : List ℕ) (rest : List (List ℕ))
      → req.method ≡ codes "GET"
      → header_text (codes "upgrade") req ≡ some protocol
      → to_ascii_lowercase protocol ≡ codes "websocket"
      → header_text (codes "connection") req ≡ some (join b',' (first ∷ rest))
      → all_without b',' (first ∷ rest) ≡ true
      → first ∷ rest ≡ before ++ item ∷ behind
      → to_ascii_lowercase (trim item) ≡ codes "upgrade"
      → header_text (codes "sec-websocket-key") req ≡ some key
      → is_empty key ≡ false
      → handle_request io trim derive_accept_key store place req
        ≡ upgrade (switch (derive_accept_key key))
  unfolding handle_request is_websocket_upgrade upgrade_ok connection_ok upgrade_reply
      to_ascii_lowercase
  handle_request-upgrade store place req protocol item key before behind first rest hm hu hp hc hw
        hs hi hk he =
      rw
        (
          hu,
          hc,
          hk,
          eq_ignore_ascii_case-lower protocol (codes "websocket") hp,
          ap (any (λ t. eq_ignore_ascii_case (trim t) (codes "upgrade")))
                (split-join b',' first rest hw ∙ hs)
              ∙ any-middle (λ t. eq_ignore_ascii_case (trim t) (codes "upgrade")) before behind item
                  (eq_ignore_ascii_case-lower (trim item) (codes "upgrade") hi),
          hm,
          bytes_eq_refl (codes "GET"),
          he,
        )
        refl
