-- ===== src/Tests/Requests.antt =====
-- Requests at the front of src/server.rs, `handle_http`, the texts of src/asgi.rs, and the challenge
-- store of src/tls/challenge.rs.
use rustasgi.Base.{
  ℕ, ◌+◌, ◌-◌, ◌≡◌, refl, Bool, true, false, List, [], ◌∷◌, ◌++◌, Option, none, some, if◌then◌else◌,
  ltb, arith,
}
use rustasgi.Base.Text.{before, bytes_eq, codes, contains}
use rustasgi.Percent.{decode_bytes}
use rustasgi.Percent.Laws.{encode, decode_bytes-encode}
use rustasgi.Request.Front.{
  header_get, HttpRequest, Platform, Place, content_length, challenge_prefix, redirect,
}
use rustasgi.Request.Feed.{
  BodyFrame, data_frame, end_of_body, request, Arrival, Poll, completes, waits, cut, feed_polls,
}
use rustasgi.Request.CutLaws.{all_told, terminals, feed_polls-messages}
use rustasgi.Request.FrontLaws.{redirect-clean, moved_to}

abbrev digit_value : List ℕ → Option ℕ
digit_value (d ∷ []) = if ltb d 58 then some (d - 48) else none
digit_value _ = none

-- A platform for texts that need no decoding, and numbers of one digit.
abbrev pub io : Platform
io = record {
  to_str = λ v. some v;
  parse_u64 = digit_value;
  from_utf8_lossy = λ b. b;
  to_decimal = λ n. (48 + n) ∷ [];
}

abbrev place : Place
place = record {
  root_path = [];
  redirect_http_to_https = true;
  is_tls = false;
  client_host = codes "1.2.3.4";
  client_port = 5;
  server_host = codes "srv";
  server_port = 80;
}

abbrev asks : List ℕ → HttpRequest
asks path = record {
  method = codes "GET";
  version = 11;
  path = path;
  query = some (codes "a=b");
  scheme = none;
  headers = (codes "host", codes "site") ∷ (content_length, codes "3") ∷ [];
}

abbrev token : List ℕ
token = codes "tok-1"

abbrev auth : List ℕ
auth = codes "tok-1.key"

abbrev challenged : HttpRequest
challenged = asks (challenge_prefix ++ token)

redirect-clean_example :
    redirect io place (asks (codes "/x")) ≡ moved_to (codes "https://site/x?a=b")
unfolding contains before header_get bytes_eq
redirect-clean_example = redirect-clean io place (asks (codes "/x")) refl refl

-- All bytes but letters are escaped.
abbrev keeps : ℕ → Bool
keeps c = ltb 64 c

decode_bytes-encode_example :
    decode_bytes (encode keeps (codes "a b%") ++ codes "%4")
    ≡ codes "a b%" ++ decode_bytes (codes "%4")
decode_bytes-encode_example =
    decode_bytes-encode keeps (codes "a b%") (codes "%4") refl
      (omega arith, (omega arith, (omega arith, (omega arith, tt))))

abbrev arrives : BodyFrame → Arrival
arrives f = record { frame = f; put_ok = true; disconnect_ok = true }

-- The second frame's step, and that of the body's end, are dropped while they put their messages.
abbrev upload : List Poll
upload =
    completes (arrives (data_frame (codes "ab")))
    ∷ waits
    ∷ cut (data_frame (codes "c")) true
    ∷ cut end_of_body true
    ∷ []

feed_polls-messages_example :
    (feed_polls (upload ++ completes (arrives end_of_body) ∷ []) []
      ≡ ([] ++ all_told upload ++ request [] false ∷ [], false))
    × (terminals (all_told upload ++ request [] false ∷ []) ≡ 2)
feed_polls-messages_example =
    feed_polls-messages upload [] (arrives end_of_body) [] ((refl, refl), (tt, (refl, (refl, tt))))
      refl refl
