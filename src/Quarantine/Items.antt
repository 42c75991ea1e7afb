-- ===== src/Quarantine/Items.antt =====
-- internal/api/quarantine.go, and `withinRoot` of internal/api/browse.go. The ids of a request are not
-- negative here; reading the item back for the reply, and a failure to mark the finding, which is
-- only logged, are left out.
pub mod Status
pub mod Outcomes
use Prim.Native.Char.{code}
use Prim.Native.String
use clamav_webui.Prelude.{
  ℕ, zero, suc, String, Bool, true, false, not, ◌&&◌, ◌||◌, Option, none, some, List, [], ◌∷◌, ◌++◌,
  ◌==◌, string_eq, nat_beq, if◌then◌else◌,
}
use clamav_webui.Db.Table
use clamav_webui.Db.Table.{Table}
use clamav_webui.Db.Scans.{ScanFinding, set_finding_action}
use clamav_webui.Db.Quarantine.{
  QuarantineItem, ItemStatus, held, restored, deleted, add_quarantine, set_quarantine_status,
  get_quarantine,
}
use clamav_webui.Quarantine.Files.{Host, Trace}
use clamav_webui.Quarantine.Store.{
  Sidecar, Facts, RestoreResult, put_back, not_in_store, parent_gone, origin_exists, move_failed,
  hold, restore, purge,
}

-- strings.HasPrefix(s, prefix)
unfoldable pub starts_with : String → String → Bool
starts_with String.[] s = true
starts_with (String.◌∷◌ c prefix) String.[] = false
starts_with (String.◌∷◌ c prefix) (String.◌∷◌ d s) =
    let rest = starts_with prefix s in nat_beq (code c) (code d) && rest

-- The functions of path/filepath, and what `SidecarFor` reads.
pub record Env : Type 0 where
  pub host : Host
  pub join : String → String
  pub parent_of : String → String
  pub is_abs : String → Bool
  pub abs : String → Option String
  pub clean : String → String
  pub rel : String → String → Option String
  pub read_sidecar : String → Option Sidecar
  pub config_dir : String
  pub browse_root : String

is_inside : Option String → Bool
is_inside none = false
is_inside (some rel) = rel == "." || (not (rel == "..") && not (starts_with "../" rel))

unfoldable pub within_root : Env → String → String → Bool
unfolding is_inside
within_root env dir root = is_inside (env.rel root dir)

-- `checkTargetPath`: whether there is no error
unfoldable pub check_target_path : Env → String → Bool
check_target_path env p =
    if not (env.is_abs p) && not (starts_with "/" p)
    then false
    else if within_root env (env.clean p) (env.clean env.config_dir)
    then false
    else within_root env (env.clean p) (env.clean env.browse_root)

pub data Event : Type 0 where
  item_held : ℕ → String → Event
  item_restored item_deleted : ℕ → Event

pub record Shelf : Type 0 where
  pub items : Table QuarantineItem
  pub findings : Table ScanFinding
  pub published : List Event

pub data Reply : Type 0 where
  created ok : ℕ → Reply
  bad_request bad_gateway internal_error conflict not_found : Reply

pub record QuarantineRequest : Type 0 where
  pub path : String
  pub signature : String
  pub scan_id : ℕ
  pub finding_id : ℕ

-- A positive id, as the pointer that the database takes.
abbrev reference : ℕ → Option ℕ
reference zero = none
reference (suc n) = some (suc n)

abbrev mark_finding : ℕ → Table ScanFinding → Table ScanFinding
mark_finding zero t = t
mark_finding (suc n) t = set_finding_action (suc n) "quarantined" t

-- The part behind a successful `Hold`. The flag says whether the row is inserted.
record_held : Env → Bool → QuarantineRequest → Sidecar → Shelf → Trace → Shelf × Reply × Trace
record_held env false req sc s t =
    (s, internal_error, (restore env.host env.join env.parent_of sc t).1)
record_held env true req sc s t =
    let (items', id) =
      add_quarantine sc.name sc.orig_path sc.signature sc.sha256 (reference req.scan_id)
        sc.orig_mode s.items in
    (
      record s {
        items = items';
        findings = mark_finding req.finding_id s.findings;
        published = s.published ++ item_held id sc.orig_path ∷ [];
      },
      created id,
      t,
    )

after_hold : Env → Bool → QuarantineRequest → Shelf → Option Sidecar × Trace → Shelf × Reply × Trace
after_hold env inserted req s (none, t) = (s, bad_gateway, t)
after_hold env inserted req s (some sc, t) = record_held env inserted req sc s t

-- `handleQuarantineFile` on the decoded body
unfoldable pub handle_quarantine_file :
    Env → Bool → Facts → Option String → QuarantineRequest → Shelf → Shelf × Reply × Trace
unfolding after_hold record_held
handle_quarantine_file env inserted facts drawn req s =
    if check_target_path env req.path
    then after_hold env inserted req s
        (hold env.host env.join (env.abs req.path) req.signature req.scan_id facts drawn [])
    else (s, bad_request, [])

abbrev scan_of : Option ℕ → ℕ
scan_of none = 0
scan_of (some id) = id

-- `sidecarFromItem`
abbrev pub sidecar_from_item : Env → QuarantineItem → Sidecar
sidecar_from_item env item = elim (env.read_sidecar item.store_name) [
  | some sc ↦ sc
  | none ↦ record {
    name = item.store_name;
    orig_path = item.orig_path;
    orig_mode = item.orig_mode;
    signature = item.signature;
    sha256 = item.sha256;
    scan_id = scan_of item.scan_id;
    size = 0;
    moved_at = "";
  }
]

-- An update whose statement succeeds or not; a failure is only logged.
abbrev set_status : Bool → ℕ → ItemStatus → Shelf → Shelf
set_status false id status s = s
set_status true id status s = record s { items = set_quarantine_status id status s.items }

abbrev publish : Event → Shelf → Shelf
publish e s = record s { published = s.published ++ e ∷ [] }

after_restore : Bool → ℕ → Shelf → RestoreResult × Trace → Shelf × Reply × Trace
after_restore updated id s (put_back, t) =
    (publish (item_restored id) (set_status updated id restored s), ok id, t)
after_restore updated id s (origin_exists, t) = (s, conflict, t)
after_restore updated id s (parent_gone, t) = (s, conflict, t)
after_restore updated id s (not_in_store, t) = (s, bad_gateway, t)
after_restore updated id s (move_failed, t) = (s, bad_gateway, t)

abbrev pub is_held : ItemStatus → Bool
is_held held = true
is_held _ = false

-- `handleRestoreQuarantine` on the id of the URL; `updated` says whether the status is stored.
restore_found : Env → Bool → ℕ → QuarantineItem → Shelf → Shelf × Reply × Trace
restore_found env updated id item s =
    if is_held item.status
    then after_restore updated id s
        (restore env.host env.join env.parent_of (sidecar_from_item env item) [])
    else (s, conflict, [])

unfoldable pub handle_restore_quarantine : Env → Bool → ℕ → Shelf → Shelf × Reply × Trace
unfolding restore_found after_restore
handle_restore_quarantine env updated id s = elim (get_quarantine id s.items) [
  | none ↦ (s, not_found, [])
  | some item ↦ restore_found env updated id item s
]

after_purge : Bool → ℕ → Shelf → Bool × Trace → Shelf × Reply × Trace
after_purge updated id s (false, t) = (s, bad_gateway, t)
after_purge updated id s (true, t) =
    (publish (item_deleted id) (set_status updated id deleted s), ok id, t)

-- `handleDeleteQuarantine`; `is_absent` is the kind of a failed removal's error.
delete_found : Env → Bool → Bool → ℕ → QuarantineItem → Shelf → Shelf × Reply × Trace
delete_found env is_absent updated id item s =
    if is_held item.status
    then after_purge updated id s (purge env.host env.join is_absent item.store_name [])
    else after_purge updated id s (true, [])

unfoldable pub handle_delete_quarantine : Env → Bool → Bool → ℕ → Shelf → Shelf × Reply × Trace
unfolding delete_found after_purge
handle_delete_quarantine env is_absent updated id s = elim (get_quarantine id s.items) [
  | none ↦ (s, not_found, [])
  | some item ↦ delete_found env is_absent updated id item s
]
