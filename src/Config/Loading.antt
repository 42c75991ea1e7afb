-- ===== src/Config/Loading.antt =====
-- What a configuration is when it is loaded.
use clamav_webui.Prelude.{
  String, ◌≡◌, ◌≢◌, ◌⊎◌, refl, inl, inr, true, not, ◌==◌, string_eq, contains, arith, eq_iff,
  Bool-cases, Option-cases, Option, none, some, if◌then◌else◌,
}
use clamav_webui.Config.{
  Config, Sources, defaults, override, decoded, file_unreadable, file_malformed, Loaded, invalid,
  refused, loaded, load, checked, from_file, apply_env, validates, bool_eq, tls_enabled, log_levels,
}

-- An address and a directory are given, the level is known, and HTTPS has both of its files or none.
pub record IsValid (c : Config) : Type 0 where
  pub addr_given : c.addr ≢ ""
  pub dir_given : c.config_dir ≢ ""
  pub level_known : contains log_levels c.log_level ≡ true
  pub tls_paired : tls_enabled c ≡ not (c.tls_cert == "")
  pub tls_paired_key : tls_enabled c ≡ not (c.tls_key == "")

validates-IsValid : (c : Config) → validates c ≡ true → IsValid c
unfolding validates bool_eq tls_enabled
validates-IsValid c h = ground (arith, h, eq_iff c.addr "", eq_iff c.config_dir "")

IsValid-validates : (c : Config) → IsValid c → validates c ≡ true
unfolding validates bool_eq tls_enabled
IsValid-validates c v = ground (
  arith,
  v.addr_given,
  v.dir_given,
  v.level_known,
  v.tls_paired,
  v.tls_paired_key,
  eq_iff c.addr "",
  eq_iff c.config_dir "",
)

-- What a variable leaves of a value
abbrev pub IsOverridden : Sources → String → String → String → Type 0
IsOverridden src key v w =
    ((src.getenv key ≡ "") × (w ≡ v)) ⊎ ((src.getenv key ≢ "") × (w ≡ src.getenv key))

-- Each field is the one of `c`, or that of its variable if this is set.
pub record IsEffective (src : Sources) (c e : Config) : Type 0 where
  pub addr : IsOverridden src "CLAMWEB_ADDR" c.addr e.addr
  pub config_dir : IsOverridden src "CLAMWEB_CONFIG_DIR" c.config_dir e.config_dir
  pub log_level : IsOverridden src "CLAMWEB_LOG_LEVEL" c.log_level e.log_level
  pub tls_cert : IsOverridden src "CLAMWEB_TLS_CERT" c.tls_cert e.tls_cert
  pub tls_key : IsOverridden src "CLAMWEB_TLS_KEY" c.tls_key e.tls_key
  pub clam_av_db_dir : IsOverridden src "CLAMWEB_CLAMAV_DB_DIR" c.clam_av_db_dir e.clam_av_db_dir
  pub clamd_conf : IsOverridden src "CLAMWEB_CLAMD_CONF" c.clamd_conf e.clamd_conf
  pub freshclam_conf : IsOverridden src "CLAMWEB_FRESHCLAM_CONF" c.freshclam_conf e.freshclam_conf
  pub browse_root : IsOverridden src "CLAMWEB_BROWSE_ROOT" c.browse_root e.browse_root

-- The path of the file, from the argument or else its variable
pub data IsPath (src : Sources) (path : String) : String → Type 0 where
  given : path ≢ "" → IsPath src path path
  by_variable : path ≡ "" → IsPath src path (src.getenv "CLAMWEB_CONFIG_FILE")

-- The configuration that the variables are laid over
pub data IsBase (src : Sources) (file : String) : Config → Type 0 where
  no_file : file ≡ "" → IsBase src file defaults
  decodes :
      (text : String) (c : Config)
      → file ≢ ""
      → src.read_file file ≡ some text
      → src.unmarshal text defaults ≡ some c
      → IsBase src file c

pub data IsLoad (src : Sources) (file : String) : Loaded → Type 0 where
  unreadable : file ≢ "" → src.read_file file ≡ none → IsLoad src file (refused file_unreadable)
  malformed :
      (text : String)
      → file ≢ ""
      → src.read_file file ≡ some text
      → src.unmarshal text defaults ≡ none
      → IsLoad src file (refused file_malformed)
  loads :
      (c e : Config)
      → IsBase src file c
      → IsEffective src c e
      → IsValid e
      → IsLoad src file (loaded e)
  refuses :
      (c e : Config)
      → IsBase src file c
      → IsEffective src c e
      → ¬ IsValid e
      → IsLoad src file (refused invalid)

override-IsOverridden :
    (src : Sources) (key v : String) → IsOverridden src key v (override src key v)
override-IsOverridden src key v = elim (Bool-cases (src.getenv key == "")) [
  | inl e ↦ inl (ground (arith, e, eq_iff (src.getenv key) ""), rw e refl)
  | inr e ↦ inr (ground (arith, e, eq_iff (src.getenv key) ""), rw e refl)
]

apply_env-IsEffective : (src : Sources) (c : Config) → IsEffective src c (apply_env src c)
unfolding apply_env
apply_env-IsEffective src c = record {
  addr = override-IsOverridden src "CLAMWEB_ADDR" c.addr;
  config_dir = override-IsOverridden src "CLAMWEB_CONFIG_DIR" c.config_dir;
  log_level = override-IsOverridden src "CLAMWEB_LOG_LEVEL" c.log_level;
  tls_cert = override-IsOverridden src "CLAMWEB_TLS_CERT" c.tls_cert;
  tls_key = override-IsOverridden src "CLAMWEB_TLS_KEY" c.tls_key;
  clam_av_db_dir = override-IsOverridden src "CLAMWEB_CLAMAV_DB_DIR" c.clam_av_db_dir;
  clamd_conf = override-IsOverridden src "CLAMWEB_CLAMD_CONF" c.clamd_conf;
  freshclam_conf = override-IsOverridden src "CLAMWEB_FRESHCLAM_CONF" c.freshclam_conf;
  browse_root = override-IsOverridden src "CLAMWEB_BROWSE_ROOT" c.browse_root;
}

checked-IsLoad :
    (src : Sources) (file : String) (c : Config)
    → IsBase src file c
    → IsLoad src file (checked src (loaded c))
unfolding checked
checked-IsLoad src file c base = elim (Bool-cases (validates (apply_env src c))) [
  | inl e ↦ rw e (
      loads c (apply_env src c) base (apply_env-IsEffective src c)
        (validates-IsValid (apply_env src c) e))
  | inr e ↦ rw e (
      refuses c (apply_env src c) base (apply_env-IsEffective src c)
        (λ v. cc (e, IsValid-validates (apply_env src c) v)))
]

decoded-IsLoad :
    (src : Sources) (file : String) (text : Option String)
    → file ≢ ""
    → src.read_file file ≡ text
    → IsLoad src file (checked src (decoded src text))
unfolding checked decoded
decoded-IsLoad src file none n e = unreadable n e
decoded-IsLoad src file (some text) n e = elim (Option-cases (src.unmarshal text defaults)) [
  | inl m ↦ rw (m, checked) (malformed text n e m)
  | inr (c, m) ↦ rw (m, checked) (checked-IsLoad src file c (decodes text c n e m))
]

file-IsLoad :
    (src : Sources) (file : String)
    → IsLoad src file
        (checked src (if file == "" then loaded defaults else decoded src (src.read_file file)))
file-IsLoad src file = elim (Bool-cases (file == "")) [
  | inl e ↦ rw e (checked-IsLoad src file defaults (no_file (ground (arith, e, eq_iff file ""))))
  | inr e ↦
      rw e (decoded-IsLoad src file (src.read_file file) (ground (arith, e, eq_iff file "")) refl)
]

-- The file is that of the argument, or else of its variable. If one is named, loading fails where it
-- cannot be read or decoded. Otherwise each field is that of its variable if this is set, or else
-- that of the file, or of the defaults where no file is named; and this is the configuration
-- exactly if it is valid, and else it is refused.
pub load-IsLoad :
    (src : Sources) (path : String)
    → (file : String) × IsPath src path file × IsLoad src file (load src path)
unfolding load from_file
load-IsLoad src path = elim (Bool-cases (path == "")) [
  | inl e ↦ (
    src.getenv "CLAMWEB_CONFIG_FILE",
    by_variable (ground (arith, e, eq_iff path "")),
    rw e (file-IsLoad src (src.getenv "CLAMWEB_CONFIG_FILE")),
  )
  | inr e ↦ (path, given (ground (arith, e, eq_iff path "")), rw e (file-IsLoad src path))
]
