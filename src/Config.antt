-- ===== src/Config.antt =====
-- internal/config/config.go: the configuration of the program from its defaults, a file and the
-- environment. Reading a file and decoding JSON onto a configuration are parameters.
pub mod Loading
mod Tests
use clamav_webui.Prelude.{
  String, Bool, true, false, not, ◌&&◌, ◌||◌, Option, none, some, List, [], ◌∷◌, ◌==◌, string_eq,
  contains, if◌then◌else◌,
}

pub record Config : Type 0 where
  pub addr : String
  pub config_dir : String
  pub log_level : String
  pub tls_cert : String
  pub tls_key : String
  pub clam_av_db_dir : String
  pub clamd_conf : String
  pub freshclam_conf : String
  pub browse_root : String

abbrev pub defaults : Config
defaults = record {
  addr = ":8080";
  config_dir = "/var/lib/clamav-webui";
  log_level = "info";
  tls_cert = "";
  tls_key = "";
  clam_av_db_dir = "/var/lib/clamav";
  clamd_conf = "/etc/clamav/clamd.conf";
  freshclam_conf = "/etc/clamav/freshclam.conf";
  browse_root = "/";
}

-- The variables (the empty text where one is not set), the contents of a file, and the fields that a
-- JSON document sets
pub record Sources : Type 0 where
  pub getenv : String → String
  pub read_file : String → Option String
  pub unmarshal : String → Config → Option Config

pub data LoadError : Type 0 where
  file_unreadable file_malformed invalid : LoadError

pub data Loaded : Type 0 where
  refused : LoadError → Loaded
  loaded : Config → Loaded

-- The value of a variable, where it is set
abbrev pub override : Sources → String → String → String
override src key v = if src.getenv key == "" then v else src.getenv key

unfoldable pub apply_env : Sources → Config → Config
apply_env src c = record {
  addr = override src "CLAMWEB_ADDR" c.addr;
  config_dir = override src "CLAMWEB_CONFIG_DIR" c.config_dir;
  log_level = override src "CLAMWEB_LOG_LEVEL" c.log_level;
  tls_cert = override src "CLAMWEB_TLS_CERT" c.tls_cert;
  tls_key = override src "CLAMWEB_TLS_KEY" c.tls_key;
  clam_av_db_dir = override src "CLAMWEB_CLAMAV_DB_DIR" c.clam_av_db_dir;
  clamd_conf = override src "CLAMWEB_CLAMD_CONF" c.clamd_conf;
  freshclam_conf = override src "CLAMWEB_FRESHCLAM_CONF" c.freshclam_conf;
  browse_root = override src "CLAMWEB_BROWSE_ROOT" c.browse_root;
}

abbrev pub log_levels : List String
log_levels = "debug" ∷ "info" ∷ "warn" ∷ "error" ∷ []

bool_eq : Bool → Bool → Bool
bool_eq true b = b
bool_eq false b = not b

-- Whether `validate` returns no error
unfoldable pub validates : Config → Bool
unfolding bool_eq
validates c =
    if c.addr == ""
    then false
    else if c.config_dir == ""
    then false
    else if not (contains log_levels c.log_level)
    then false
    else bool_eq (c.tls_cert == "") (c.tls_key == "")

unfoldable decoded : Sources → Option String → Loaded
decoded src none = refused file_unreadable
decoded src (some text) = elim (src.unmarshal text defaults) [
  | none ↦ refused file_malformed
  | some c ↦ loaded c
]

-- The part of `Load` that reads the file, where there is one
unfoldable pub from_file : Sources → String → Loaded
unfolding decoded
from_file src path =
    let path' = if path == "" then src.getenv "CLAMWEB_CONFIG_FILE" else path in
    if path' == "" then loaded defaults else decoded src (src.read_file path')

unfoldable checked : Sources → Loaded → Loaded
checked src (refused e) = refused e
checked src (loaded c) =
    if validates (apply_env src c) then loaded (apply_env src c) else refused invalid

unfoldable pub load : Sources → String → Loaded
unfolding checked
load src path = checked src (from_file src path)

unfoldable pub tls_enabled : Config → Bool
tls_enabled c = not (c.tls_cert == "") && not (c.tls_key == "")
