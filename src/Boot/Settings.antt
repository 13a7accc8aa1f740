-- ===== src/Boot/Settings.antt =====
-- src/lib.rs: how `run` and `run_worker` fill in their configuration from the environment, and
-- `tokio_worker_threads`. A text is the list of its characters.
use rustasgi.Base.{
  ℕ, ◌+◌, ◌*◌, ◌-◌, ◌^◌, Bool, false, not, ◌&&◌, ◌||◌, List, [], ◌∷◌, Option, none, some, is_empty,
  all, if◌then◌else◌, leb, ltb, ◌==◌, map,
}
use rustasgi.Base.Text.{bytes_eq, codes, split, is_digit}
use rustasgi.Base.Words.{trim}
use rustasgi.Cli.{ServerConfig}
use Prim.Native.String.{String}

-- `std::env::var(name).ok()`.
abbrev pub Env : Type 0
Env = String → Option (List ℕ)

-- The arguments of `run`, or those of `run_worker` that reach the configuration.
abbrev pub Arguments : Type 0
Arguments = ServerConfig

-- `.filter(|x| !x.is_empty())`.
abbrev pub drop_empty : List (List ℕ) → List (List ℕ)
drop_empty [] = []
drop_empty (x ∷ xs) = let rest = drop_empty xs in if is_empty x then rest else x ∷ rest

-- `s.split(',')`, each part trimmed, the empty ones dropped.
unfoldable pub comma_list : List ℕ → List (List ℕ)
comma_list s = drop_empty (map trim (split (λ c. c == b',') s))

-- `.unwrap_or_default()`.
abbrev list_or_empty : Option (List ℕ) → List (List ℕ)
list_or_empty none = []
list_or_empty (some s) = comma_list s

-- `acme_domains` and `tls_sni`: the argument, or the variable if the argument is empty.
unfoldable pub list_setting : List (List ℕ) → Option (List ℕ) → List (List ℕ)
list_setting [] variable = list_or_empty variable
list_setting (x ∷ xs) variable = x ∷ xs

-- `argument.or_else(variable)`.
abbrev pub or_else : Option (List ℕ) → Option (List ℕ) → Option (List ℕ)
or_else (some a) variable = some a
or_else none variable = variable

abbrev pub non_empty : Option (List ℕ) → Option (List ℕ)
non_empty none = none
non_empty (some s) = if is_empty s then none else some s

-- `tls_cert` and `tls_key`.
abbrev pub path_setting : Option (List ℕ) → Option (List ℕ) → Option (List ℕ)
path_setting argument variable = or_else argument (non_empty variable)

-- `env::var(..).as_deref() == Ok("1")`.
abbrev pub is_one : Option (List ℕ) → Bool
is_one none = false
is_one (some s) = bytes_eq s (codes "1")

-- `run`, up to `ServerConfig::new`.
unfoldable pub settings : Env → Arguments → ServerConfig
settings env a = record a {
  tls_cert = path_setting a.tls_cert (env "RUSTWASGI_TLS_CERT");
  tls_key = path_setting a.tls_key (env "RUSTWASGI_TLS_KEY");
  redirect_http_to_https =
      a.redirect_http_to_https || is_one (env "RUSTWASGI_REDIRECT_HTTP_TO_HTTPS");
  acme_directory = or_else a.acme_directory (env "RUSTWASGI_ACME_DIRECTORY");
  acme_email = or_else a.acme_email (env "RUSTWASGI_ACME_EMAIL");
  acme_domains = list_setting a.acme_domains (env "RUSTWASGI_ACME_DOMAINS");
  acme_dir = or_else a.acme_dir (env "RUSTWASGI_ACME_DIR");
  tls_sni = list_setting a.tls_sni (env "RUSTWASGI_TLS_SNI");
}

-- `run_worker`, up to `ServerConfig::new`: Gunicorn owns the address, the log level and the number of
-- workers.
unfoldable pub worker_settings : Env → Arguments → ServerConfig
unfolding settings
worker_settings env a = record (settings env a) {
  host = [];
  port = 0;
  workers = 1;
  log_level = codes "info";
}

-- `v.parse::<usize>()`: an optional plus, then digits, of a number below 2^64.
digits_value : ℕ → List ℕ → ℕ
digits_value n [] = n
digits_value n (c ∷ s) = digits_value (10 * n + (c - b'0')) s

abbrev without_plus : List ℕ → List ℕ
without_plus [] = []
without_plus (c ∷ s) = if c == b'+' then s else c ∷ s

unfoldable pub parse_usize : List ℕ → Option ℕ
unfolding digits_value
parse_usize s =
    let digits = without_plus s in
    let n = digits_value 0 digits in
    if not (is_empty digits) && all is_digit digits && ltb n (2 ^ 64) then some n else none

-- The number of CPUs, or 4 if it is not known.
abbrev pub cpus_or_four : Option ℕ → ℕ
cpus_or_four (some n) = n
cpus_or_four none = 4

unfoldable pub tokio_worker_threads : Option (List ℕ) → Option ℕ → ℕ
tokio_worker_threads none cpus = cpus_or_four cpus
tokio_worker_threads (some v) cpus = elim (parse_usize v) [
  | some n ↦ if leb 1 n then n else cpus_or_four cpus
  | none ↦ cpus_or_four cpus
]
