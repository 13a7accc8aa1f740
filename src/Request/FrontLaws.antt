-- ===== src/Request/FrontLaws.antt =====
-- What `handle_http` answers by itself, and what it calls the application for (src/server.rs).
use rustasgi.Base.{
  is_empty, ◌↔◌, ℕ, ◌≡◌, refl, ap, ◌∙◌, Bool, true, false, not, ◌&&◌, ◌||◌, List, [], ◌∷◌, ◌++◌,
  none, some, Option, any, any-append, if◌then◌else◌, ◌==◌, arith, ◌⊎◌,
}
use rustasgi.Base.Text.{
  codes, bytes_eq, bytes_eq_iff, contains, strip_prefix, strip_prefix-append, before,
}
use rustasgi.Message.{Header, transfer_encoding, get_or}
use rustasgi.Percent.{percent_decode}
use rustasgi.Challenge.{Entries, is_valid_token, get, insert}
use rustasgi.Challenge.Laws.{get-insert}
use rustasgi.Request.Front.{
  HttpRequest, Platform, Place, RequestData, Reply, version_str, reply, call, content_length,
  is_positive, body_loop, status_response, is_break, header_get, host_name, bind_str, query_suffix,
  redirect_host, redirect_location, redirect, redirect_to, challenge_prefix, challenge_found,
  challenge_reply, request_data, front,
}

contains-append : (c : ℕ) (s t : List ℕ) → contains c (s ++ t) ≡ (contains c s || contains c t)
unfolding contains
contains-append c s t = any-append (λ b. b == c) s t

before-clean :
    (s : List ℕ)
    → (contains 13 (before is_break s) ≡ false) × (contains 10 (before is_break s) ≡ false)
unfolding contains before
before-clean [] = (refl, refl)
before-clean (c ∷ s) = ground (arith, before-clean s)

abbrev pub is_clean : List ℕ → Bool
is_clean s = not (contains 13 s) && not (contains 10 s)

is_clean-append : (s t : List ℕ) → is_clean (s ++ t) ≡ (is_clean s && is_clean t)
is_clean-append s t = ground (arith, contains-append 13 s t, contains-append 10 s t)

redirect_location-clean :
    (host : List ℕ) (req : HttpRequest)
    → is_clean host ≡ true
    → is_clean req.path ≡ true
    → is_clean (query_suffix req.query) ≡ true
    → is_clean (redirect_location host req) ≡ true
redirect_location-clean host req h p q =
    unfold redirect_location contains in
    rw (is_clean-append (codes "https://") (host ++ req.path ++ query_suffix req.query)) (
      rw (
        is_clean-append (host ++ req.path) (query_suffix req.query),
        is_clean-append host req.path,
        h,
        p,
        q,
      ))

redirect_host-clean :
    (io : Platform) (place : Place) (req : HttpRequest)
    → is_clean (redirect_host io place req) ≡ true
unfolding redirect_host
redirect_host-clean io place req = ground (
  arith,
  before-clean (get_or (bind_str io (header_get host_name req.headers)) place.server_host),
)

-- `308` to a place, without content.
abbrev pub moved_to : List ℕ → Reply
moved_to url = record {
  status = 308;
  headers = (codes "location", url) ∷ (codes "content-length", codes "0") ∷ [];
  content = [];
}

-- `?` and the query, if there is one.
abbrev pub query_text : Option (List ℕ) → List ℕ
query_text none = []
query_text (some q) = codes "?" ++ q

query_text-suffix : (q : Option (List ℕ)) → query_suffix q ≡ query_text q
query_text-suffix none = refl
query_text-suffix (some q) = refl

valid_get :
    (token : List ℕ) (store : Entries)
    → (if is_valid_token token then get token store else none) ≡ get token store
unfolding get
valid_get token store = ground arith

module _ (io : Platform) where
  -- The headers by which a client announces a body: any Transfer-Encoding, or a Content-Length
  -- that is not the number 0.
  abbrev pub announces_body : Header → Bool
  announces_body h =
      bytes_eq h.0 transfer_encoding || (bytes_eq h.0 content_length && is_positive io h.1)

  -- The loop over the headers finds a body exactly if one header announces it, in any order.
  pub body_loop-any :
      (b : Bool) (hs : List Header) → body_loop io b hs ≡ (b || any announces_body hs)
  unfolding body_loop
  body_loop-any b [] = ground arith
  body_loop-any b ((n, v) ∷ hs) = ground (
    arith,
    body_loop-any true hs,
    body_loop-any b hs,
    bytes_eq_iff n transfer_encoding,
    bytes_eq_iff n content_length,
  )

  redirect-location :
      (place : Place) (req : HttpRequest)
      → is_clean req.path ≡ true
      → is_clean (query_suffix req.query) ≡ true
      → redirect io place req ≡ (
          if is_empty (redirect_host io place req) || contains b' ' (redirect_host io place req)
          then status_response io 400 (codes "Bad Request")
          else redirect_to (redirect_location (redirect_host io place req) req))
  unfolding redirect
  redirect-location place req p q = ground (
    arith,
    redirect_location-clean (redirect_host io place req) req (redirect_host-clean io place req) p q,
  )

  -- The text of the Host header, or the server's own name, up to its first line break.
  abbrev pub own_host : Place → HttpRequest → List ℕ
  own_host place req =
      before is_break (get_or (bind_str io (header_get host_name req.headers)) place.server_host)

  -- For a request target without CR and LF, which hyper's parser guarantees, the redirect is a 308 to
  -- `https://`, the request's host, its path, and its query behind a question mark, unless that host
  -- is empty or has a space: the second test of the code never refuses.
  pub redirect-clean :
      (place : Place) (req : HttpRequest)
      → is_clean req.path ≡ true
      → is_clean (query_text req.query) ≡ true
      → redirect io place req ≡ (
          if is_empty (own_host place req) || contains b' ' (own_host place req)
          then status_response io 400 (codes "Bad Request")
          else moved_to
              (codes "https://" ++ own_host place req ++ req.path ++ query_text req.query))
  unfolding redirect_host redirect_to redirect_location
  redirect-clean place req p q =
      let host = own_host place req in
      redirect-location place req p (ap is_clean (query_text-suffix req.query) ∙ q)
      ∙ ap
          (λ z.
            if is_empty host || contains b' ' host
            then status_response io 400 (codes "Bad Request")
            else moved_to (codes "https://" ++ host ++ req.path ++ z))
          (query_text-suffix req.query)

  -- A challenge path is answered from the store, with 200 or 404, whatever the redirect setting and
  -- the transport; the application does not see it.
  pub front-challenge :
      (store : Entries) (place : Place) (req : HttpRequest) (token : List ℕ)
      → req.path ≡ challenge_prefix ++ token
      → front io store place req ≡ reply (challenge_found io (get token store))
  unfolding front challenge_reply
  front-challenge store place req token h = rw h (
      rw (strip_prefix-append challenge_prefix token)
        (ap reply (ap (challenge_found io) (valid_get token store))))

  -- Once a valid token is put into the store, the challenge path of that token is answered with its
  -- authorisation, status 200, and the challenge path of any other token as it was before.
  front-insert :
      (store : Entries) (place : Place) (req : HttpRequest) (k token auth : List ℕ)
      → is_valid_token k ≡ true
      → req.path ≡ challenge_prefix ++ token
      → front io (insert k auth store) place req ≡ (
          if bytes_eq k token
          then reply (challenge_found io (some auth))
          else front io store place req)
  front-insert store place req k token auth v h =
      rw
        (
          front-challenge (insert k auth store) place req token h,
          front-challenge store place req token h,
          get-insert k token auth store,
          v,
        )
        (if_reply (bytes_eq k token))
    where
      if_reply :
          (b : Bool)
          → reply (challenge_found io (if b then some auth else get token store)) ≡ (
              if b
              then reply (challenge_found io (some auth))
              else reply (challenge_found io (get token store)))
      if_reply true = refl
      if_reply false = refl

  -- The version of HTTP as its digits.
  abbrev pub digits_of : ℕ → List ℕ
  digits_of v =
      if v == 10
      then codes "1.0"
      else if v == 20
      then codes "2"
      else if v == 30
      then codes "3"
      else codes "1.1"

  -- What the application is to be told of a request: what the client sent, and the two ends.
  abbrev pub told : Place → HttpRequest → RequestData
  told place req = record {
    method = req.method;
    http_version = digits_of req.version;
    scheme = if place.is_tls then codes "https" else get_or req.scheme (codes "http");
    path = percent_decode io.from_utf8_lossy req.path;
    raw_path = req.path;
    query_string = get_or req.query [];
    root_path = place.root_path;
    headers = req.headers;
    has_body = any announces_body req.headers;
    client_host = place.client_host;
    client_port = place.client_port;
    server_host = place.server_host;
    server_port = place.server_port;
  }

  request_data-told :
      (place : Place) (req : HttpRequest) → request_data io place req ≡ told place req
  unfolding request_data version_str
  request_data-told place req = rw (body_loop-any false req.headers) refl

  pub front-call :
      (store : Entries) (place : Place) (req : HttpRequest) (d : RequestData)
      → (front io store place req ≡ call d) ↔ (
          (strip_prefix challenge_prefix req.path ≡ none)
          × ((place.redirect_http_to_https ≡ false) ⊎ (place.is_tls ≡ true))
          × (d ≡ told place req))
  unfolding front
  front-call store place req d =
      let same = request_data-told place req in
      (λ h. (ground arith, ground arith, ground (arith, same)), λ h. ground (arith, same))
