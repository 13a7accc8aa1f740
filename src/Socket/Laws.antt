-- ===== src/Socket/Laws.antt =====
-- Who owns the listening descriptors when `bind_inherited` returns (src/socket.rs).
use mathlib.Core.Path.{subst}
use mathlib.Core.List.{append-nil, append_assoc, map-append}
use rustasgi.Base.{
  ℕ, suc, ◌+◌, ◌≡◌, refl, sym, ap, ◌∙◌, not, List, [], ◌∷◌, ◌++◌, none, some, map, ◌==◌, Option,
  if_elim, if◌then◌else◌, Result, ok, err, arith,
}
use rustasgi.Base.Text.{bytes_eq, codes}
use rustasgi.Socket.{
  InheritedSocket, BoundListener, tcp, description, SocketError, SocketApi, bind_tcp, bind_unix,
  bind_one, fd_of, is_tcp, fds, bind_loop, not_empty, bind_inherited,
}

abbrev pub count : ℕ → List ℕ → ℕ
count n [] = 0
count n (m ∷ ms) = if m == n then suc (count n ms) else count n ms

count-append : (n : ℕ) (xs ys : List ℕ) → count n (xs ++ ys) ≡ count n xs + count n ys
count-append n [] ys = omega arith
count-append n (x ∷ xs) ys = ground (arith, count-append n xs ys)

abbrev pub descriptions : List InheritedSocket → List (List ℕ)
descriptions [] = []
descriptions (s ∷ ss) = s.description ∷ descriptions ss

-- A bound listener has the descriptor and the description of its socket.
abbrev Bound : InheritedSocket → Result SocketError BoundListener → Type 0
Bound s (err e) = Unit
Bound s (ok l) = (fd_of l ≡ s.fd) × (description l ≡ s.description)

map-snoc {ℓ κ} :
    {A : Type ℓ} {B : Type κ} (f : A → B) (xs : List A) (x : A) (ys : List B) {y : B}
    → f x ≡ y
    → map f (xs ++ x ∷ []) ++ ys ≡ map f xs ++ y ∷ ys
map-snoc f xs x ys e =
    ap (λ zs. zs ++ ys) (map-append f xs (x ∷ []))
    ∙ append_assoc (map f xs) (f x ∷ []) ys
    ∙ ap (λ z. map f xs ++ z ∷ ys) e

-- What becomes of the descriptors: all of them are with listeners, in order, or all are closed.
abbrev pub IsSettled :
    List ℕ → List (List ℕ) → Result SocketError (List BoundListener) × List ℕ → Type 0
IsSettled handed texts (ok out, closed) =
    (map fd_of out ≡ handed) × (map description out ≡ texts) × (closed ≡ [])
IsSettled handed texts (err e, closed) = (n : ℕ) → count n closed ≡ count n handed

module _ (os : SocketApi) where
  bind_tcp-Bound : (s : InheritedSocket) → Bound s (bind_tcp os s)
  unfolding bind_tcp
  bind_tcp-Bound s = if_elim (Bound s) (not (os.set_nonblocking s.fd)) tt (go (os.local_addr s.fd))
    where
      go :
          (o : Option (List ℕ))
          → Bound s (elim o [
            | none ↦ err SocketError.getsockname
            | some local ↦
                if os.tcp_from_std s.fd
                then ok (tcp s.fd local s.description)
                else err SocketError.tokio_tcp
          ])
      go none = tt
      go (some local) = if_elim (Bound s) (os.tcp_from_std s.fd) (refl, refl) tt

  bind_one-Bound : (s : InheritedSocket) → Bound s (bind_one os s)
  unfolding bind_one bind_unix
  bind_one-Bound s = if_elim (Bound s) (is_tcp s.family) (bind_tcp-Bound s) (
      if_elim (Bound s) (bytes_eq s.family (codes "unix"))
        (if_elim (Bound s) (not (os.set_nonblocking s.fd)) tt
          (if_elim (Bound s) (os.unix_from_std s.fd) (refl, refl) tt))
        tt)

  bind_loop-IsSettled :
      (out : List BoundListener) (ss : List InheritedSocket)
      → IsSettled
          (map fd_of out ++ fds ss)
          (map description out ++ descriptions ss)
          (bind_loop os out ss)
  unfolding bind_loop
  bind_loop-IsSettled out [] = (sym (append-nil _), sym (append-nil _), refl)
  bind_loop-IsSettled out (s ∷ ss) =
      go (bind_one os s) (bind_one-Bound s) (λ l. bind_loop-IsSettled (out ++ l ∷ []) ss)
    where
      go :
          (r : Result SocketError BoundListener)
          → Bound s r
          → ((l : BoundListener)
              → IsSettled
                  (map fd_of (out ++ l ∷ []) ++ fds ss)
                  (map description (out ++ l ∷ []) ++ descriptions ss)
                  (bind_loop os (out ++ l ∷ []) ss))
          → IsSettled
              (map fd_of out ++ fds (s ∷ ss))
              (map description out ++ descriptions (s ∷ ss))
              (elim r [
                | err e ↦ (err e, s.fd ∷ fds ss ++ map fd_of out)
                | ok l ↦ bind_loop os (out ++ l ∷ []) ss
              ])
      go (err e) b h = λ n. ground (
        arith,
        count-append n (fds ss) (map fd_of out),
        count-append n (map fd_of out) (s.fd ∷ fds ss),
      )
      go (ok l) (f, d) h =
          subst
            (λ xs.
              IsSettled xs (map description out ++ descriptions (s ∷ ss))
                (bind_loop os (out ++ l ∷ []) ss))
            (map-snoc fd_of out l (fds ss) f)
            (subst
              (λ xs.
                IsSettled (map fd_of (out ++ l ∷ []) ++ fds ss) xs
                  (bind_loop os (out ++ l ∷ []) ss))
              (map-snoc description out l (descriptions ss) d) (h l))

  not_empty-IsSettled :
      (handed : List ℕ) (texts : List (List ℕ))
      (p : Result SocketError (List BoundListener) × List ℕ)
      → IsSettled handed texts p
      → IsSettled handed texts (not_empty p.0, p.1)
  unfolding not_empty
  not_empty-IsSettled handed texts (err e, closed) h = h
  not_empty-IsSettled handed texts (ok [], closed) (f, d, c) = λ n. rw (c, ← f) refl
  not_empty-IsSettled handed texts (ok (l ∷ out), closed) h = h

  -- No descriptor that Gunicorn hands over is lost or closed twice: if the call succeeds, each is
  -- with its listener, in the order and with the descriptions given, and none is closed; if it
  -- fails, each is closed as often as it was handed over.
  pub bind_inherited-IsSettled :
      (sockets : List InheritedSocket)
      → IsSettled (fds sockets) (descriptions sockets) (bind_inherited os sockets)
  unfolding bind_inherited
  bind_inherited-IsSettled sockets =
      not_empty-IsSettled (fds sockets) (descriptions sockets) (bind_loop os [] sockets)
        (bind_loop-IsSettled [] sockets)
