-- ===== src/Settings.antt =====
-- internal/api/config.go and `confKeysFor` of internal/clamav/config_files.go: the requests on the
-- settings files, behind the decoding of a body.
pub mod Puts
mod Tests
use clamav_webui.Prelude.{
  String, Bool, true, false, not, ◌&&◌, Option, none, some, List, [], ◌∷◌, ◌++◌, ◌==◌, string_eq,
  if◌then◌else◌,
}
use clamav_webui.Clam.System.{Trace, System}
use clamav_webui.Clam.Services.{service_action, ServiceError}
use clamav_webui.Clam.Conf.{
  ConfLib, ConfKeys, Updates, ConfFile, ConfError, key_not_allowed, value_invalid, not_readable,
  write_failed, clamd_keys, freshclam_keys, write_conf,
}
use clamav_webui.Clam.Conf.Reading.{read_conf}

-- The keys of a file and the unit that reads it; a file that is not known has none.
unfoldable pub conf_keys_for : String → Option (ConfKeys × String)
conf_keys_for which =
    if which == "clamd"
    then some (clamd_keys, "clamav-daemon")
    else if which == "freshclam"
    then some (freshclam_keys, "clamav-freshclam")
    else none

pub record ConfFiles : Type 0 where
  pub clamd : ConfFile
  pub freshclam : ConfFile
  pub trace : Trace
  -- the units whose restart was published
  pub published : List String

-- `confPath`
unfoldable pub file_of : String → ConfFiles → ConfFile
file_of which s = if which == "freshclam" then s.freshclam else s.clamd

unfoldable pub put_file : String → ConfFile → ConfFiles → ConfFiles
put_file which f s =
    if which == "freshclam" then record s { freshclam = f } else record s { clamd = f }

abbrev pub View : Type 0
View = List (String × List String)

pub data Reply : Type 0 where
  not_found bad_request bad_gateway : Reply
  view : View → Reply
  stored : View → Bool → Reply

-- `handleGetConfig`; `readable` says whether the file can be read.
unfoldable pub handle_get_config : ConfLib → Bool → String → ConfFiles → Reply
handle_get_config lib readable which s = elim (conf_keys_for which) [
  | none ↦ not_found
  | some (keys, unit) ↦
      view
        (read_conf lib keys (if readable then some (lib.lines (file_of which s).current) else none))
]

pub record ConfigUpdate : Type 0 where
  pub updates : Updates
  pub restart : Bool

-- The flags of `write_conf`, and whether the file can be read again behind it
pub record Answers : Type 0 where
  pub readable : Bool
  pub backed_up : Bool
  pub replaced : Bool
  pub readable_after : Bool

-- The restart behind a write
unfoldable restarted : System → Bool → String → ConfFiles → ConfFiles × Bool
restarted system false unit s = (s, false)
restarted system true unit s =
    let (failure, t) = service_action system unit "restart" s.trace in
    elim failure [
      | some e ↦ (record s { trace = t }, false)
      | none ↦ (record s { trace = t; published = s.published ++ unit ∷ [] }, true)
    ]

reply_error : ConfError → Reply
reply_error key_not_allowed = bad_request
reply_error value_invalid = bad_gateway
reply_error not_readable = bad_gateway
reply_error write_failed = bad_gateway

after_write :
    ConfLib
    → System
    → Answers
    → ConfKeys
    → String
    → String
    → Bool
    → ConfFiles
    → ConfFile × Option ConfError
    → ConfFiles × Reply
after_write lib system a keys unit which restart s (f, some e) = (put_file which f s, reply_error e)
after_write lib system a keys unit which restart s (f, none) =
    let (s', done) = restarted system restart unit (put_file which f s) in
    (
      s',
      stored (read_conf lib keys (if a.readable_after then some (lib.lines f.current) else none))
          done,
    )

put_known :
    ConfLib
    → System
    → Answers
    → String
    → ConfigUpdate
    → ConfFiles
    → Option (ConfKeys × String)
    → ConfFiles × Reply
put_known lib system a which req s none = (s, not_found)
put_known lib system a which req s (some (keys, unit)) =
    after_write lib system a keys unit which req.restart s
      (write_conf lib keys a.readable a.backed_up a.replaced req.updates (file_of which s))

-- `handlePutConfig`
unfoldable pub handle_put_config :
    ConfLib → System → Answers → String → ConfigUpdate → ConfFiles → ConfFiles × Reply
unfolding put_known after_write restarted reply_error
handle_put_config lib system a which req s =
    put_known lib system a which req s (conf_keys_for which)
