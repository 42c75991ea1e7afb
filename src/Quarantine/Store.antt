-- ===== src/Quarantine/Store.antt =====
-- `Hold`, `Restore` and `Purge` of internal/quarantine/store.go. The paths come from the library:
-- `join` is `filepath.Join` on the store's directory, and `parent_of` is `filepath.Dir`.
pub mod Safety
use Prim.Native.String
use clamav_webui.Prelude.{
  ℕ, String, Bool, true, false, not, Option, none, some, if◌then◌else◌, ◌==◌, nat_eq,
}
use clamav_webui.Quarantine.Files.{
  Host, Trace, ask, move_file, lstat, open_file, fstat, hash, stat, open_for_writing, overwrite,
  is_regular, is_same_regular, is_dir, close, remove, write_file, chmod,
}

pub record Sidecar : Type 0 where
  pub name : String
  pub orig_path : String
  pub orig_mode : ℕ
  pub signature : String
  pub sha256 : String
  pub scan_id : ℕ
  pub size : ℕ
  pub moved_at : String

-- What the system tells of the file that `Hold` opened, and the time.
pub record Facts : Type 0 where
  pub mode : ℕ
  pub sha256 : String
  pub size : ℕ
  pub now : String

-- The checks of `Hold` up to the hash, and the fchmod through the descriptor.
unfoldable pub examine : Host → String → Trace → Bool × Trace
examine host path t =
    let (found, t₁) = ask host (lstat path) t in
    let (regular, t₂) = ask host (is_regular path) t₁ in
    let (opened, t₃) = ask host (open_file path) t₂ in
    let (known, t₄) = ask host (fstat path) t₃ in
    let (same, t₅) = ask host (is_same_regular path) t₄ in
    let (hashed, t₆) = ask host (hash path) t₅ in
    let neutral = (ask host (close path) (ask host (chmod path 0) t₆).1).1 in
    if not found
    then (false, t₁)
    else if not regular
    then (false, t₂)
    else if not opened
    then (false, t₃)
    else if not known
    then (false, (ask host (close path) t₄).1)
    else if not same
    then (false, (ask host (close path) t₅).1)
    else if not hashed
    then (false, (ask host (close path) t₆).1)
    else (true, neutral)

abbrev pub sidecar_path : (String → String) → String → String
sidecar_path join name = join (String.◌++◌ name ".json")

-- The move into the store under a name that was drawn, and the sidecar.
unfoldable pub store_as : Host → (String → String) → Sidecar → Trace → Option Sidecar × Trace
store_as host join sc t =
    let dst = join sc.name in
    let (moved, t₁) = move_file host sc.orig_path dst t in
    let (hidden, t₂) = ask host (chmod dst 384) t₁ in
    let (noted, t₃) = ask host (write_file (sidecar_path join sc.name)) t₂ in
    if not moved
    then (none, (ask host (chmod sc.orig_path sc.orig_mode) t₁).1)
    else if noted
    then (some sc, t₃)
    else (none, t₃)

-- `Hold` on the absolute path; `drawn` is the name of random bytes, `none` where reading them fails.
hold_at :
    Host
    → (String → String)
    → String
    → String
    → ℕ
    → Facts
    → Option String
    → Trace
    → Option Sidecar × Trace
hold_at host join path signature scan_id facts none t = (none, (examine host path t).1)
hold_at host join path signature scan_id facts (some name) t =
    let (fit, t₁) = examine host path t in
    let stored =
      store_as host join
        (record {
          name = name;
          orig_path = path;
          orig_mode = facts.mode;
          signature = signature;
          sha256 = facts.sha256;
          scan_id = scan_id;
          size = facts.size;
          moved_at = facts.now;
        })
        t₁ in
    if fit then stored else (none, t₁)

-- `abs` is the absolute path, `none` where `filepath.Abs` fails.
unfoldable pub hold :
    Host
    → (String → String)
    → Option String
    → String
    → ℕ
    → Facts
    → Option String
    → Trace
    → Option Sidecar × Trace
unfolding hold_at
hold host join none signature scan_id facts drawn t = (none, t)
hold host join (some path) signature scan_id facts drawn t =
    hold_at host join path signature scan_id facts drawn t

-- mode == 0 becomes 0644
abbrev pub restored_mode : Sidecar → ℕ
restored_mode sc = if sc.orig_mode == 0 then 420 else sc.orig_mode

pub data RestoreResult : Type 0 where
  put_back not_in_store parent_gone origin_exists move_failed : RestoreResult

unfoldable pub restore :
    Host → (String → String) → (String → String) → Sidecar → Trace → RestoreResult × Trace
restore host join parent_of sc t =
    let parent = parent_of sc.orig_path in
    let (held, t₁) = ask host (stat (join sc.name)) t in
    let (parent_known, t₂) = ask host (stat parent) t₁ in
    let (parent_dir, t₃) = ask host (is_dir parent) t₂ in
    let (occupied, t₄) = ask host (lstat sc.orig_path) t₃ in
    let (moved, t₅) = move_file host (join sc.name) sc.orig_path t₄ in
    let cleaned =
      (ask host (remove (sidecar_path join sc.name))
        (ask host (chmod sc.orig_path (restored_mode sc)) t₅).1).1 in
    if not held
    then (not_in_store, t₁)
    else if not parent_known
    then (parent_gone, t₂)
    else if not parent_dir
    then (parent_gone, t₃)
    else if occupied
    then (origin_exists, t₄)
    else if moved
    then (put_back, cleaned)
    else (move_failed, t₅)

-- The overwriting of `Purge`, whose outcomes are ignored.
zero_out : Host → String → Trace → Trace
zero_out host blob t =
    let (found, t₁) = ask host (stat blob) t in
    let (opened, t₂) = ask host (open_for_writing blob) t₁ in
    let zeroed = (ask host (close blob) (ask host (overwrite blob) t₂).1).1 in
    if not found then t₁ else if not opened then t₂ else zeroed

-- `is_absent` says whether the error of a failed removal is that the blob is not there.
unfoldable pub purge : Host → (String → String) → Bool → String → Trace → Bool × Trace
unfolding zero_out
purge host join is_absent name t =
    let blob = join name in
    let (removed, t₁) = ask host (remove blob) (zero_out host blob t) in
    let cleaned = (ask host (remove (sidecar_path join name)) t₁).1 in
    if removed then (true, cleaned) else if is_absent then (true, cleaned) else (false, t₁)
