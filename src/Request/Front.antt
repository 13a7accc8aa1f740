-- ===== src/Request/Front.antt =====
-- src/server.rs: `handle_http` up to the call of the application, and `status_response`.
use rustasgi.Base.{
  is_empty, ℕ, Bool, true, false, not, ◌&&◌, ◌||◌, List, [], ◌∷◌, ◌++◌, Option, none, some, length,
  ltb, ◌==◌, if◌then◌else◌,
}
use rustasgi.Base.Text.{codes, bytes_eq, contains, strip_prefix, before}
use rustasgi.Message.{Header, transfer_encoding, get_or}
use rustasgi.Challenge.{Entries, is_valid_token, get}
use rustasgi.Percent.{percent_decode}

-- The parts of a request that hyper hands over. Header names are lowercase in `http::HeaderMap`.
pub record HttpRequest : Type 0 where
  pub method : List ℕ
  pub version : ℕ
  pub path : List ℕ
  pub query : Option (List ℕ)
  pub scheme : Option (List ℕ)
  pub headers : List Header

-- What `http`, `std` and the environment contribute.
pub record Platform : Type 0 where
  -- `value.to_str().ok()`.
  pub to_str : List ℕ → Option (List ℕ)
  -- `v.trim().parse::<u64>().ok()`.
  pub parse_u64 : List ℕ → Option ℕ
  pub from_utf8_lossy : List ℕ → List ℕ
  -- `n.to_string()`.
  pub to_decimal : ℕ → List ℕ

-- The settings of `ServeConfig` that the request path reads, and the ends of the connection.
pub record Place : Type 0 where
  pub root_path : List ℕ
  pub redirect_http_to_https : Bool
  pub is_tls : Bool
  pub client_host : List ℕ
  pub client_port : ℕ
  pub server_host : List ℕ
  pub server_port : ℕ

pub record RequestData : Type 0 where
  pub method : List ℕ
  pub http_version : List ℕ
  pub scheme : List ℕ
  pub path : List ℕ
  pub raw_path : List ℕ
  pub query_string : List ℕ
  pub root_path : List ℕ
  pub headers : List Header
  pub has_body : Bool
  pub client_host : List ℕ
  pub client_port : ℕ
  pub server_host : List ℕ
  pub server_port : ℕ

pub record Reply : Type 0 where
  pub status : ℕ
  pub headers : List Header
  pub content : List ℕ

-- A reply that Rust gives itself, or the call of the application.
pub data Front : Type 0 where
  reply : Reply → Front
  call : RequestData → Front

abbrev pub content_length : List ℕ
content_length = codes "content-length"

abbrev pub host_name : List ℕ
host_name = codes "host"

-- `.and_then(parse).map(|n| n > 0).unwrap_or(true)` on a Content-Length value.
abbrev pub positive_number : Option ℕ → Bool
positive_number (some n) = ltb 0 n
positive_number none = true

-- `uri.query().map(|q| format!("?{q}")).unwrap_or_default()`.
abbrev pub query_suffix : Option (List ℕ) → List ℕ
query_suffix none = []
query_suffix (some q) = b'?' ∷ q

-- `headers.get(name)`: the first value.
unfoldable pub header_get : List ℕ → List Header → Option (List ℕ)
header_get name [] = none
header_get name ((k, v) ∷ hs) = if bytes_eq k name then some v else header_get name hs

abbrev pub is_break : ℕ → Bool
is_break c = c == 13 || c == 10

unfoldable pub redirect_location : List ℕ → HttpRequest → List ℕ
redirect_location host req = codes "https://" ++ host ++ req.path ++ query_suffix req.query

unfoldable pub redirect_to : List ℕ → Reply
redirect_to location = record {
  status = 308;
  headers = (codes "location", location) ∷ (content_length, codes "0") ∷ [];
  content = [];
}

abbrev pub challenge_prefix : List ℕ
challenge_prefix = codes "/.well-known/acme-challenge/"

-- `parts.version` as 10, 11, 20 or 30 for HTTP/1.0, 1.1, 2 and 3.
unfoldable pub version_str : ℕ → List ℕ
version_str v =
    if v == 10
    then codes "1.0"
    else if v == 20
    then codes "2"
    else if v == 30
    then codes "3"
    else codes "1.1"

module _ (io : Platform) where
  open io use {to_str, parse_u64, from_utf8_lossy, to_decimal}

  abbrev pub parse_length : Option (List ℕ) → Option ℕ
  parse_length none = none
  parse_length (some v) = parse_u64 v

  unfoldable pub is_positive : List ℕ → Bool
  is_positive value = positive_number (parse_length (to_str value))

  -- The loop over the headers that computes `has_body`.
  unfoldable pub body_loop : Bool → List Header → Bool
  body_loop has_body [] = has_body
  body_loop has_body ((name, value) ∷ hs) =
      body_loop
        (if bytes_eq name transfer_encoding
          then true
          else if bytes_eq name content_length
          then (if is_positive value then true else has_body)
          else has_body)
        hs

  unfoldable pub status_response : ℕ → List ℕ → Reply
  status_response status text =
      let content = text ++ 10 ∷ [] in
      record {
        status = status;
        headers =
            (codes "content-type", codes "text/plain; charset=utf-8")
            ∷ (content_length, to_decimal (length content))
            ∷ [];
        content = content;
      }

  abbrev pub bind_str : Option (List ℕ) → Option (List ℕ)
  bind_str none = none
  bind_str (some v) = to_str v

  -- The Host header, or the server's own name; cut at the first CR or LF.
  unfoldable pub redirect_host : Place → HttpRequest → List ℕ
  unfolding header_get
  redirect_host place req =
      before is_break (get_or (bind_str (header_get host_name req.headers)) place.server_host)

  unfoldable pub redirect : Place → HttpRequest → Reply
  unfolding redirect_to
  redirect place req =
      let host = redirect_host place req in
      let location = redirect_location host req in
      if is_empty host || contains b' ' host
      then status_response 400 (codes "Bad Request")
      else if contains 13 location || contains 10 location
      then status_response 400 (codes "Bad Request")
      else redirect_to location

  abbrev pub challenge_found : Option (List ℕ) → Reply
  challenge_found (some auth) = record {
    status = 200;
    headers =
        (codes "content-type", codes "text/plain")
        ∷ (content_length, to_decimal (length auth))
        ∷ [];
    content = auth;
  }
  challenge_found none = status_response 404 (codes "Not Found")

  unfoldable pub challenge_reply : Entries → List ℕ → Reply
  challenge_reply store token =
      challenge_found (if is_valid_token token then get token store else none)

  unfoldable pub request_data : Place → HttpRequest → RequestData
  unfolding version_str
  request_data place req = record {
    method = req.method;
    http_version = version_str req.version;
    scheme = if place.is_tls then codes "https" else get_or req.scheme (codes "http");
    path = percent_decode from_utf8_lossy req.path;
    raw_path = req.path;
    query_string = get_or req.query [];
    root_path = place.root_path;
    headers = req.headers;
    has_body = body_loop false req.headers;
    client_host = place.client_host;
    client_port = place.client_port;
    server_host = place.server_host;
    server_port = place.server_port;
  }

  after_challenge : Place → HttpRequest → Front
  after_challenge place req =
      if place.redirect_http_to_https && not place.is_tls
      then reply (redirect place req)
      else call (request_data place req)

  front_of : Entries → Place → HttpRequest → Option (List ℕ) → Front
  front_of store place req (some token) = reply (challenge_reply store token)
  front_of store place req none = after_challenge place req

  unfoldable pub front : Entries → Place → HttpRequest → Front
  unfolding front_of after_challenge
  front store place req = front_of store place req (strip_prefix challenge_prefix req.path)
