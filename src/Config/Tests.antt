-- ===== src/Config/Tests.antt =====
-- Loading from a file and the environment.
use clamav_webui.Prelude.{String, ◌≡◌, refl, some, ◌==◌, string_eq, if◌then◌else◌}
use clamav_webui.Config.{
  Sources, defaults, invalid, refused, loaded, load, from_file, apply_env, validates,
}
use clamav_webui.Config.Loading.{IsPath, IsLoad, load-IsLoad}

-- A certificate in the file, and a level in the environment
abbrev sources : Sources
sources = record {
  getenv = λ k. if k == "CLAMWEB_LOG_LEVEL" then "debug" else "";
  read_file = λ p. some p;
  unmarshal = λ text c. some (record c { tls_cert = text });
}

without_file : load sources "" ≡ loaded (record defaults { log_level = "debug" })
unfolding load from_file apply_env validates
without_file = refl

without_key : load sources "cert.pem" ≡ refused invalid
unfolding load from_file apply_env validates
without_key = refl

load-IsLoad_example :
    (file : String) × IsPath sources "cert.pem" file × IsLoad sources file (load sources "cert.pem")
load-IsLoad_example = load-IsLoad sources "cert.pem"
