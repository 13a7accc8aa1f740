-- ===== src/Acme/RenewalLaws.antt =====
-- When a certificate is due, how long an order is polled, and what it leaves in the challenge store
-- (src/acme/renewal.rs).
use rustasgi.Base.{
  ℕ, zero, suc, ◌+◌, ◌*◌, ◌^◌, ◌≤◌, ◌<◌, ◌≡◌, ◌↔◌, refl, sym, ap, ◌∙◌, Bool, true, false, ◌||◌,
  List, [], ◌∷◌, Option, none, some, if◌then◌else◌, ltb, arith, length, Result, ok, err,
}
use rustasgi.Base.Text.{bytes_eq}
use rustasgi.Challenge.{Entries, get}
use rustasgi.Challenge.Laws.{get-insert, get-remove}
use rustasgi.Tls.Config.{TlsLib}
use rustasgi.Tls.State.{TlsState}
use rustasgi.Acme.Install.{InstallError, Disk, Paths, Weather, atomic_install}
use rustasgi.Acme.Account.{AccountError, AcmeClient}
use rustasgi.Acme.Due.{ℤ, pos, negsuc, minus, whole_days, as_i64, below, is_due}
use rustasgi.Acme.Renewal.{
  AcmeConfig, ordered, with_account, RenewError, refresh, order_invalid, order_not_ready,
  OrderStatus, pending, ready, processing, valid, invalid, poll_order, Authz, place, cleanup,
  remove_token, Site, Order, verdict, or_later, place_one, placed, polled, generate_and_install,
  installed, cleaned, try_acme_issuance,
}

-- The certificate ends before the given number of days from now.
abbrev pub ends_before : ℤ → ℕ → Bool
ends_before (pos e) deadline = ltb e deadline
ends_before (negsuc e) deadline = true

-- With a threshold of at least one day, a certificate is due exactly when its last second is less
-- than that many days ahead, expired certificates included.
pub is_due-threshold :
    (expiry_secs : ℤ) (now_secs threshold_days : ℕ)
    → 1 ≤ threshold_days
    → threshold_days < 2 ^ 63
    → is_due expiry_secs now_secs threshold_days
      ≡ ends_before expiry_secs (now_secs + 86400 * threshold_days)
unfolding is_due whole_days minus as_i64 below
is_due-threshold (pos e) n t h b = ground arith
is_due-threshold (negsuc e) n t h b = ground arith

-- Among the first n answers one is ready, and all before it are statuses that leave the order open.
pub ready_within : ℕ → List (Option OrderStatus) → Bool
ready_within zero answers = false
ready_within (suc n) [] = false
ready_within (suc n) (none ∷ rest) = false
ready_within (suc n) (some ready ∷ rest) = true
ready_within (suc n) (some invalid ∷ rest) = false
ready_within (suc n) (some _ ∷ rest) = ready_within n rest

-- The remaining number of refreshes is n + 1.
poll_order-remaining :
    (n tries : ℕ) (answers : List (Option OrderStatus))
    → tries + n ≡ 10
    → n < length answers
    → (r : Result RenewError (Unit {0})) × (poll_order tries answers ≡ some r)
      × ((r ≡ ok tt) ↔ (ready_within (suc n) answers ≡ true))
unfolding poll_order verdict or_later ready_within
poll_order-remaining n tries [] h l = ground arith
poll_order-remaining n tries (none ∷ rest) h l = (err refresh, refl, ground arith)
poll_order-remaining n tries (some ready ∷ rest) h l = (ok tt, refl, ground arith)
poll_order-remaining n tries (some invalid ∷ rest) h l = (err order_invalid, refl, ground arith)
poll_order-remaining zero tries (some pending ∷ rest) h l =
    (err order_not_ready, ground arith, ground arith)
poll_order-remaining zero tries (some processing ∷ rest) h l =
    (err order_not_ready, ground arith, ground arith)
poll_order-remaining zero tries (some valid ∷ rest) h l =
    (err order_not_ready, ground arith, ground arith)
poll_order-remaining (suc n) tries (some pending ∷ rest) h l =
    let (r, e, i) = poll_order-remaining n (suc tries) rest (omega arith) (omega arith) in
    (r, ground arith, i)
poll_order-remaining (suc n) tries (some processing ∷ rest) h l =
    let (r, e, i) = poll_order-remaining n (suc tries) rest (omega arith) (omega arith) in
    (r, ground arith, i)
poll_order-remaining (suc n) tries (some valid ∷ rest) h l =
    let (r, e, i) = poll_order-remaining n (suc tries) rest (omega arith) (omega arith) in
    (r, ground arith, i)

-- The polling of an order ends within eleven refreshes, and succeeds exactly when one of the eleven
-- answers is ready and every answer before it leaves the order open.
pub poll_order-ends :
    (answers : List (Option OrderStatus))
    → 11 ≤ length answers
    → (r : Result RenewError (Unit {0})) × (poll_order 0 answers ≡ some r)
      × ((r ≡ ok tt) ↔ (ready_within 11 answers ≡ true))
poll_order-ends answers l = poll_order-remaining 10 0 answers refl l

-- The token of one of the order's challenges.
named_one : List ℕ → Option (List ℕ × List ℕ) → Bool
named_one j none = false
named_one j (some (token, auth)) = bytes_eq token j

pub named : List ℕ → List Authz → Bool
unfolding named_one
named j [] = false
named j (a ∷ rest) = named_one j a.http01 || named j rest

get-remove_token :
    (j : List ℕ) (c : Option (List ℕ × List ℕ)) (m : Entries)
    → get j (remove_token c m) ≡ (if named_one j c then none else get j m)
unfolding remove_token named_one
get-remove_token j none m = refl
get-remove_token j (some (token, auth)) m = get-remove token j m

get-cleanup :
    (j : List ℕ) (authzs : List Authz) (m : Entries)
    → get j (cleanup authzs m) ≡ (if named j authzs then none else get j m)
unfolding cleanup named
get-cleanup j [] m = refl
get-cleanup j (a ∷ rest) m =
    ground (arith, get-cleanup j rest (remove_token a.http01 m), get-remove_token j a.http01 m)

get-place_one :
    (j : List ℕ) (c : Option (List ℕ × List ℕ)) (b : Bool) (m : Entries)
    → named_one j c ≡ false
    → get j (place_one c b m).0 ≡ get j m
unfolding place_one named_one
get-place_one j none b m h = refl
get-place_one j (some (token, auth)) true m h = ground (arith, get-insert token j auth m)
get-place_one j (some (token, auth)) false m h = ground (arith, get-insert token j auth m)

get-place :
    (j : List ℕ) (authzs : List Authz) (m : Entries)
    → named j authzs ≡ false
    → get j (place authzs m).0 ≡ get j m
unfolding place named
get-place j [] m h = refl
get-place j (a ∷ rest) m h = ground (
  arith,
  get-place_one j a.http01 a.ready_ok m,
  get-place j rest (place_one a.http01 a.ready_ok m).0,
)

module _ (lib : TlsLib) (x509_ok : List ℕ → Bool) where
  installed-store :
      (m : Entries) (r : Disk × TlsState lib × Result InstallError (Unit {0}))
      → (installed lib x509_ok m r).0.store ≡ m
  unfolding installed
  installed-store m (disk, tls, ok u) = refl
  installed-store m (disk, tls, err e) = refl

  generate_and_install-store :
      (p : Paths) (g : Option (List ℕ × List ℕ)) (w : Weather) (s : Site lib)
      → (generate_and_install lib x509_ok p g w s).0.store ≡ s.store
  unfolding generate_and_install
  generate_and_install-store p none w s = refl
  generate_and_install-store p (some (c, k)) w s =
      installed-store s.store (atomic_install lib x509_ok p w c k s.disk s.tls)

  cleaned-clears :
      (authzs : List Authz) (r : Site lib × Result RenewError (Unit {0})) (t : Site lib)
      (j : List ℕ)
      → cleaned lib x509_ok authzs r ≡ (t, ok tt)
      → get j t.store ≡ (if named j authzs then none else get j r.0.store)
  unfolding cleaned
  cleaned-clears authzs (s, err e) t j h = cc
  cleaned-clears authzs (s, ok u) t j h =
      sym (ap (λ x. get j x.0.store) h) ∙ get-cleanup j authzs s.store

  polled-clears :
      (p : Paths) (o : Order) (authzs : List Authz) (s : Site lib)
      (r : Option (Result RenewError (Unit {0}))) (t : Site lib) (j : List ℕ)
      → polled lib x509_ok p o authzs s r ≡ some (t, ok tt)
      → get j t.store ≡ (if named j authzs then none else get j s.store)
  unfolding polled
  polled-clears p o authzs s none t j h = cc
  polled-clears p o authzs s (some (err e)) t j h = cc
  polled-clears p o authzs s (some (ok u)) t j h = ground (
    arith,
    cleaned-clears authzs (generate_and_install lib x509_ok p o.generated o.weather s) t j,
    generate_and_install-store p o.generated o.weather s,
  )

  placed-clears :
      (p : Paths) (o : Order) (authzs : List Authz) (s : Site lib)
      (r : Entries × Result RenewError (Unit {0})) (t : Site lib) (j : List ℕ)
      → placed lib x509_ok p o authzs s r ≡ some (t, ok tt)
      → get j t.store ≡ (if named j authzs then none else get j r.0)
  unfolding placed
  placed-clears p o authzs s (m, err e) t j h = cc
  placed-clears p o authzs s (m, ok u) t j h =
      polled-clears p o authzs (record s { store = m }) (poll_order 0 o.polls) t j h

  ordered-clears :
      (p : Paths) (o : Order) (s t : Site lib) (authzs : List Authz) (j : List ℕ)
      → o.authzs ≡ some authzs
      → ordered lib x509_ok p o s ≡ some (t, ok tt)
      → get j t.store ≡ (if named j authzs then none else get j s.store)
  unfolding ordered
  ordered-clears p o s t authzs j ha h =
      ground
        (arith, placed-clears p o authzs s (place authzs s.store) t j, get-place j authzs s.store)

  module _ (client : AcmeClient) where
    with_account-clears :
        (p : Paths) (o : Order) (s t : Site lib) (authzs : List Authz) (j : List ℕ)
        (r : Disk × Result AccountError client.Account)
        → o.authzs ≡ some authzs
        → with_account lib x509_ok client p o s r ≡ some (t, ok tt)
        → get j t.store ≡ (if named j authzs then none else get j s.store)
    unfolding with_account
    with_account-clears p o s t authzs j (disk, err e) ha h = cc
    with_account-clears p o s t authzs j (disk, ok a) ha h =
        ordered-clears p o (record s { disk = disk }) t authzs j ha h

    -- After an order that succeeded, the challenge store has no token of the order, and answers
    -- every other token as before.
    pub try_acme_issuance-clears :
        (cfg : AcmeConfig) (p : Paths) (o : Order) (s t : Site lib) (authzs : List Authz)
        (j : List ℕ)
        → o.authzs ≡ some authzs
        → try_acme_issuance lib x509_ok client cfg p o s ≡ some (t, ok tt)
        → get j t.store ≡ (if named j authzs then none else get j s.store)
    unfolding try_acme_issuance
    try_acme_issuance-clears cfg p o s t authzs j ha h = with_account-clears p o s t authzs j _ ha h
