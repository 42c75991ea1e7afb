-- ===== src/Monitor/Detection.antt =====
-- `onOnAccessDetection` of internal/api/onaccess_tailer.go, and the reading of the journal's lines that
-- calls it.
pub mod Outcome
mod Tests
use clamav_webui.Prelude.{
  String, Text, Bool, true, false, Option, none, some, List, [], ◌∷◌, ◌++◌, if◌then◌else◌,
}
use clamav_webui.Db.Quarantine.{add_quarantine}
use clamav_webui.Quarantine.Files.{Trace}
use clamav_webui.Quarantine.Store.{Sidecar, Facts, hold, restore}
use clamav_webui.Quarantine.Items.{Env, Shelf, Event, item_held, check_target_path}
use clamav_webui.Clam.Journal.{parse_on_access_found}

-- The event of a detection, which is stored, published and notified
pub record Detection : Type 0 where
  pub path : String
  pub signature : String
  pub quarantined : Bool

pub record Watch : Type 0 where
  pub shelf : Shelf
  pub alerts : List Detection

-- The row of a held file; `inserted` says whether it can be stored.
keep_item : Env → Bool → Sidecar → Shelf → Trace → Shelf × Bool × Trace
keep_item env true sc s t =
    let (items', id) =
      add_quarantine sc.name sc.orig_path sc.signature sc.sha256 none sc.orig_mode s.items in
    (
      record s { items = items'; published = s.published ++ item_held id sc.orig_path ∷ [] },
      true,
      t,
    )
keep_item env false sc s t = (s, false, (restore env.host env.join env.parent_of sc t).1)

after_hold : Env → Bool → Shelf → Option Sidecar × Trace → Shelf × Bool × Trace
after_hold env inserted s (none, t) = (s, false, t)
after_hold env inserted s (some sc, t) = keep_item env inserted sc s t

-- The quarantine of the file, as far as it succeeds
unfoldable pub try_quarantine :
    Env → Bool → Facts → Option String → String → String → Shelf → Shelf × Bool × Trace
unfolding after_hold keep_item
try_quarantine env inserted facts drawn path signature s =
    if check_target_path env path
    then after_hold env inserted s
        (hold env.host env.join (env.abs path) signature 0 facts drawn [])
    else (s, false, [])

unfoldable pub on_access_detection :
    Env → Bool → Facts → Option String → String → String → Watch → Watch × Trace
on_access_detection env inserted facts drawn path signature w =
    let (shelf, quarantined, t) = try_quarantine env inserted facts drawn path signature w.shelf in
    (
      record {
        shelf = shelf;
        alerts =
            w.alerts
            ++ record { path = path; signature = signature; quarantined = quarantined } ∷ [];
      },
      t,
    )

-- The function that the follower calls for each line; `name` is the text of some bytes.
detect_found :
    (Text → String)
    → Env
    → Bool
    → Facts
    → Option String
    → Option (Text × Text)
    → Watch
    → Watch × Trace
detect_found name env inserted facts drawn none w = (w, [])
detect_found name env inserted facts drawn (some (path, sig)) w =
    on_access_detection env inserted facts drawn (name path) (name sig) w

unfoldable pub on_journal_line :
    (Text → Text)
    → (Text → String)
    → Env
    → Bool
    → Facts
    → Option String
    → Text
    → Watch
    → Watch × Trace
unfolding detect_found
on_journal_line trim name env inserted facts drawn line w =
    detect_found name env inserted facts drawn (parse_on_access_found trim line) w
