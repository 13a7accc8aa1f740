-- ===== src/Server/AcceptLaws.antt =====
-- Which connections an accept loop serves, and where it stops (src/server.rs).
use mathlib.Core.Path.{ap₂}
use mathlib.Core.List.{append_assoc}
use rustasgi.Base.{
  ℕ, ◌≡◌, refl, ap, ◌∙◌, sym, Bool, true, false, List, [], ◌∷◌, ◌++◌, Option, none, some, All,
  if◌then◌else◌, if_elim, if_both,
}
use rustasgi.Server.Accept.{
  Endpoint, Handshake, completed, failed, pending, TcpClient, Yield, woken, accept_error, accepted,
  Turn, Effect, spawn, Stand, left, in_handshake, Result, tcp_endpoint, nodelay, after_handshake,
  tcp_yield, tcp_turn, go_on, accept_loop,
}

abbrev pub spawned : List Effect → List Endpoint
spawned [] = []
spawned (spawn e ∷ es) = e ∷ spawned es
spawned (_ ∷ es) = spawned es

spawned-append : (es fs : List Effect) → spawned (es ++ fs) ≡ spawned es ++ spawned fs
spawned-append [] fs = refl
spawned-append (spawn e ∷ es) fs = ap (λ xs. e ∷ xs) (spawned-append es fs)
spawned-append (Effect.warn_accept ∷ es) fs = spawned-append es fs
spawned-append (Effect.warn_nodelay ∷ es) fs = spawned-append es fs
spawned-append (Effect.warn_handshake ∷ es) fs = spawned-append es fs
spawned-append (Effect.handshake_counted ∷ es) fs = spawned-append es fs
spawned-append (Effect.handshake_error_counted ∷ es) fs = spawned-append es fs

-- The effects in front of a connection spawn nothing.
behind_nodelay : (c : TcpClient) (es : List Effect) → spawned (nodelay c ++ es) ≡ spawned es
behind_nodelay c es =
    if_elim (λ (fs : List Effect). spawned (fs ++ es) ≡ spawned es) c.nodelay_ok refl refl

-- What a turn is for: where it stops the loop (at the flag, at the wake-up, or in a handshake that
-- does not end), and the connection that it serves (each accepted one, over TLS after its handshake).
module _ (local_ip : List ℕ) (local_port : ℕ) where
  abbrev pub Plan : Type 0
  Plan = Option Stand × List Endpoint

  abbrev pub plan_tls : TcpClient → Handshake → Plan
  plan_tls c completed = (none, tcp_endpoint local_ip local_port c true ∷ [])
  plan_tls c failed = (none, [])
  plan_tls c pending = (some in_handshake, [])

  abbrev pub plan_yield : Bool → Yield TcpClient → Plan
  plan_yield tls woken = (some left, [])
  plan_yield tls accept_error = (none, [])
  plan_yield false (accepted c) = (none, tcp_endpoint local_ip local_port c false ∷ [])
  plan_yield true (accepted c) = plan_tls c c.handshake

  abbrev pub plan : Bool → Turn TcpClient → Plan
  plan tls t = if t.is_set then (some left, []) else plan_yield tls t.yields

  abbrev pub served : Bool → List (Turn TcpClient) → List Endpoint
  served tls [] = []
  served tls (t ∷ ts) = (plan tls t).1 ++ served tls ts

  abbrev Follows : Result → Plan → Type 0
  Follows r p = (r.1 ≡ p.0) × (spawned r.0 ≡ p.1)

  handshake-Follows :
      (c : TcpClient) (h : Handshake)
      → Follows (after_handshake local_ip local_port c h) (plan_tls c h)
  unfolding after_handshake
  handshake-Follows c completed = (refl, behind_nodelay c _)
  handshake-Follows c failed = (refl, behind_nodelay c _)
  handshake-Follows c pending =
      (refl, if_elim (λ (fs : List Effect). spawned fs ≡ []) c.nodelay_ok refl refl)

  yield-Follows :
      (tls : Bool) (y : Yield TcpClient)
      → Follows (tcp_yield local_ip local_port tls y) (plan_yield tls y)
  unfolding tcp_yield
  yield-Follows tls woken = (refl, refl)
  yield-Follows tls accept_error = (refl, refl)
  yield-Follows false (accepted c) = (refl, behind_nodelay c _)
  yield-Follows true (accepted c) = handshake-Follows c c.handshake

  turn-Follows :
      (tls : Bool) (t : Turn TcpClient) → Follows (tcp_turn local_ip local_port tls t) (plan tls t)
  unfolding tcp_turn
  turn-Follows tls t = if_both Follows t.is_set (refl, refl) (yield-Follows tls t.yields)

  abbrev Behaves : Bool → List (Turn TcpClient) → List Endpoint → Stand → Type 0
  Behaves tls ts es s =
      let r = accept_loop (tcp_turn local_ip local_port tls) ts in (spawned r.0 ≡ es) × (r.1 ≡ s)

  -- A turn that goes on, and one that does not.
  on-Behaves :
      (tls : Bool) (t : Turn TcpClient) (ts : List (Turn TcpClient)) (es : List Endpoint)
      (s : Stand)
      → (plan tls t).0 ≡ none
      → Behaves tls ts es s
      → Behaves tls (t ∷ ts) ((plan tls t).1 ++ es) s
  unfolding accept_loop
  on-Behaves tls t ts es s h b = go (tcp_turn local_ip local_port tls t) (turn-Follows tls t)
    where
      go :
          (r : Result)
          → Follows r (plan tls t)
          → let q = go_on r (accept_loop (tcp_turn local_ip local_port tls) ts) in
            (spawned q.0 ≡ (plan tls t).1 ++ es) × (q.1 ≡ s)
      go (fs, none) (f, g) = (spawned-append fs _ ∙ ap₂ ◌++◌ g b.0, b.1)
      go (fs, some s') (f, g) = absurd cc

  stop-Behaves :
      (tls : Bool) (t : Turn TcpClient) (ts : List (Turn TcpClient)) (s : Stand)
      → (plan tls t).0 ≡ some s
      → Behaves tls (t ∷ ts) (plan tls t).1 s
  unfolding accept_loop
  stop-Behaves tls t ts s h = go (tcp_turn local_ip local_port tls t) (turn-Follows tls t)
    where
      go :
          (r : Result)
          → Follows r (plan tls t)
          → let q = go_on r (accept_loop (tcp_turn local_ip local_port tls) ts) in
            (spawned q.0 ≡ (plan tls t).1) × (q.1 ≡ s)
      go (fs, none) (f, g) = absurd cc
      go (fs, some s') (f, g) = (g, cc)

  -- Up to the turn that stops it, the loop serves every connection that it accepts, in order and once
  -- (over TLS those whose handshake succeeds), whatever errors come between; at that turn it leaves
  -- if the shutdown flag is set or it is woken, and in the handshake of a client that never ends it,
  -- it stays, whatever comes behind, a shutdown included.
  pub accept_loop-stops :
      (tls : Bool) (ts us : List (Turn TcpClient)) (t : Turn TcpClient) (s : Stand)
      → All (λ u. (plan tls u).0 ≡ none) ts
      → (plan tls t).0 ≡ some s
      → let (es, stand) = accept_loop (tcp_turn local_ip local_port tls) (ts ++ t ∷ us) in
        (spawned es ≡ served tls ts ++ (plan tls t).1) × (stand ≡ s)
  accept_loop-stops tls [] us t s h e = stop-Behaves tls t us s e
  accept_loop-stops tls (u ∷ ts) us t s (h, hs) e =
      let r =
        on-Behaves tls u (ts ++ t ∷ us) (served tls ts ++ (plan tls t).1) s h
          (accept_loop-stops tls ts us t s hs e) in
      (r.0 ∙ sym (append_assoc (plan tls u).1 (served tls ts) (plan tls t).1), r.1)
