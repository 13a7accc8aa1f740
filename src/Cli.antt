-- ===== src/Cli.antt =====
-- src/cli.rs: the configuration that the two entry points build, and its log filters.
use rustasgi.Base.{
  ℕ, Bool, true, false, not, ◌&&◌, List, ◌++◌, Option, none, some, is_empty, if◌then◌else◌,
}
use rustasgi.Base.Text.{bytes_eq, codes, to_ascii_lowercase}

pub record ServerConfig : Type 0 where
  pub app_spec : List ℕ
  pub host : List ℕ
  pub port : ℕ
  pub workers : ℕ
  pub log_level : List ℕ
  pub root_path : List ℕ
  pub lifespan : List ℕ
  pub access_log : Bool
  pub tls_cert : Option (List ℕ)
  pub tls_key : Option (List ℕ)
  pub redirect_http_to_https : Bool
  pub acme_directory : Option (List ℕ)
  pub acme_email : Option (List ℕ)
  pub acme_domains : List (List ℕ)
  pub acme_dir : Option (List ℕ)
  pub tls_sni : List (List ℕ)

abbrev pub is_some {ℓ} : {A : Type ℓ} → Option A → Bool
is_some none = false
is_some (some _) = true

unfoldable pub is_acme_enabled : ServerConfig → Bool
is_acme_enabled cfg = not (is_empty cfg.acme_domains) && is_some cfg.acme_email

-- `level != "quiet" && level != "silent"`.
unfoldable pub is_loud : ServerConfig → Bool
is_loud cfg =
    not (bytes_eq (to_ascii_lowercase cfg.log_level) (codes "quiet"))
    && not (bytes_eq (to_ascii_lowercase cfg.log_level) (codes "silent"))

-- What `log_info` and `log_warn` print, if anything.
unfoldable pub log_info : ServerConfig → List ℕ → Option (List ℕ)
log_info cfg msg = if is_loud cfg then some (codes "INFO rustwasgi: " ++ msg) else none

unfoldable pub log_warn : ServerConfig → List ℕ → Option (List ℕ)
log_warn cfg msg = if is_loud cfg then some (codes "WARN rustwasgi: " ++ msg) else none
