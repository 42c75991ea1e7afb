-- ===== src/Clam/OnAccess.antt =====
-- `ApplyOnAccess` of internal/clamav/onaccess.go, with `RestoreConfBackup` of config_files.go: the
-- settings of on-access scanning, and the services that run on them.
pub mod Rollback
mod Tests
use clamav_webui.Prelude.{
  String, Bool, true, false, not, ◌&&◌, Option, none, some, List, [], ◌∷◌, if◌then◌else◌,
}
use clamav_webui.Clam.System.{Trace, System, ask, look_path}
use clamav_webui.Clam.Services.{service_action, ServiceError}
use clamav_webui.Clam.Conf.{ConfLib, ConfKeys, Updates, ConfFile, ConfError, write_conf}

pub record OnAccessConfig : Type 0 where
  pub enabled : Bool
  pub paths : List String
  pub exclude_paths : List String
  pub exclude_unames : List String
  pub prevention : Bool

abbrev pub unames_for : List String → List String
unames_for [] = "clamav" ∷ []
unames_for (u ∷ us) = u ∷ us

abbrev pub updates_for : OnAccessConfig → Updates
updates_for cfg =
    ("OnAccessIncludePath", cfg.paths)
    ∷ ("OnAccessExcludePath", cfg.exclude_paths)
    ∷ ("OnAccessExcludeUname", unames_for cfg.exclude_unames)
    ∷ ("OnAccessPrevention", (if cfg.prevention then "yes" else "no") ∷ [])
    ∷ []

pub data OnAccessError : Type 0 where
  not_installed disable_failed daemon_unreadable : OnAccessError
  restart_failed enable_failed start_failed : OnAccessError
  write_refused : ConfError → OnAccessError

-- What the files and systemd answer: whether the daemon's unit is there (`none` where its state cannot be
-- read), the flags of `write_conf`, and whether the backup can be moved back.
pub record Answers : Type 0 where
  pub daemon : Option Bool
  pub readable : Bool
  pub backed_up : Bool
  pub replaced : Bool
  pub restored : Bool

-- The settings of clamd, and the calls to the system
pub record ClamState : Type 0 where
  pub clamd : ConfFile
  pub trace : Trace

take_backup : Option String → ConfFile → ConfFile
take_backup none f = f
take_backup (some text) f = record { current = text; backup = none }

-- `RestoreConfBackup`, where the move of the backup succeeds or not
unfoldable pub restore_conf_backup : Bool → ConfFile → ConfFile
unfolding take_backup
restore_conf_backup moved f = if moved then take_backup f.backup f else f

disable : System → ClamState → ClamState × Option OnAccessError
disable system s =
    let stopped = service_action system "clamav-clamonacc" "stop" s.trace in
    let (failure, t) = service_action system "clamav-clamonacc" "disable" stopped.1 in
    (record s { trace = t }, elim failure [ none ↦ none | some e ↦ some disable_failed ])

-- The restart of the scanner behind that of the daemon
start_clamonacc : System → ClamState → ClamState × Option OnAccessError
start_clamonacc system s =
    let (not_enabled, t₁) = service_action system "clamav-clamonacc" "enable" s.trace in
    let (not_started, t₂) = service_action system "clamav-clamonacc" "restart" t₁ in
    elim not_enabled [
      | some e ↦ (record s { trace = t₁ }, some enable_failed)
      | none ↦
          (record s { trace = t₂ }, elim not_started [ none ↦ none | some e ↦ some start_failed ])
    ]

-- The daemon is restarted on the settings that were written; where that fails they are rolled back.
restart_daemon : System → Answers → ClamState → ClamState × Option OnAccessError
restart_daemon system a s =
    let enabled = service_action system "clamav-daemon" "enable" s.trace in
    let (failure, t) = service_action system "clamav-daemon" "restart" enabled.1 in
    let again = service_action system "clamav-daemon" "restart" t in
    elim failure [
      | some e ↦ (
        record { clamd = restore_conf_backup a.restored s.clamd; trace = again.1 },
        some restart_failed,
      )
      | none ↦ start_clamonacc system (record s { trace = t })
    ]

written : System → Answers → ConfFile × Option ConfError → Trace → ClamState × Option OnAccessError
written system a (f, some e) t = (record { clamd = f; trace = t }, some (write_refused e))
written system a (f, none) t = restart_daemon system a (record { clamd = f; trace = t })

enable :
    ConfLib
    → ConfKeys
    → System
    → Answers
    → Option Bool
    → OnAccessConfig
    → ClamState
    → ClamState × Option OnAccessError
enable lib keys system a none cfg s = (s, some daemon_unreadable)
enable lib keys system a (some false) cfg s = (s, some not_installed)
enable lib keys system a (some true) cfg s =
    written system a
      (write_conf lib keys a.readable a.backed_up a.replaced (updates_for cfg) s.clamd) s.trace

-- `ApplyOnAccess`, on the keys of clamd
unfoldable pub apply_on_access :
    ConfLib
    → ConfKeys
    → System
    → Answers
    → OnAccessConfig
    → ClamState
    → ClamState × Option OnAccessError
unfolding disable start_clamonacc restart_daemon written enable
apply_on_access lib keys system a cfg s =
    let (found, t) = ask system (look_path "clamonacc") s.trace in
    if not found
    then (record s { trace = t }, some not_installed)
    else if not cfg.enabled
    then disable system (record s { trace = t })
    else enable lib keys system a a.daemon cfg (record s { trace = t })
