-- ===== src/Quarantine/Store/Safety.antt =====
-- What the store leaves of a file where an operation succeeds and where it fails.
use clamav_webui.Prelude.{
  ◌||◌, [], ℕ, String, ◌≡◌, ◌≢◌, ◌⊎◌, Bool, true, false, none, some, ◌∷◌, ◌==◌, string_eq, arith,
  eq_iff,
}
use clamav_webui.Quarantine.Files.{
  is_dir, stat, ask, move_file, lstat, Host, Trace, is_gone, is_left, move_file_outcome,
  move_file-is_moved, is_moved, write_file,
}
use clamav_webui.Quarantine.Store.{
  put_back, Facts, restore, hold, RestoreResult, Sidecar, examine, store_as, sidecar_path,
}

-- The last write of a file failed.
abbrev pub write_failed : String → Trace → Bool
write_failed path ((write_file p, false) ∷ t) = p == path
write_failed path _ = false

examine_keeps :
    (host : Host) (path p : String) (t : Trace)
    → (is_gone p (examine host path t).1 ≡ is_gone p t)
      × (is_left p (examine host path t).1 ≡ is_left p t)
unfolding examine
examine_keeps host path p t = (ground arith, ground arith)

store_as_outcome :
    (host : Host) (join : String → String) (sc : Sidecar) (t : Trace)
    → sc.orig_path ≢ join sc.name
    → is_left (join sc.name) t ≡ false
    → let (stored, u) = store_as host join sc t in
      ((stored ≡ some sc) × (is_gone sc.orig_path u ≡ true))
      ⊎ ((stored ≡ none) × (is_gone sc.orig_path u ≡ is_gone sc.orig_path t))
      ⊎ ((stored ≡ none)
          × (is_gone sc.orig_path u ≡ true)
          × (write_failed (sidecar_path join sc.name) u ≡ true))
unfolding store_as
store_as_outcome host join sc t n h =
    let (taken, kept) = move_file_outcome host sc.orig_path (join sc.name) t n h in
    ground (arith, taken, kept, eq_iff (sidecar_path join sc.name) (sidecar_path join sc.name))

-- The sidecar that `Hold` makes for the file.
abbrev pub sidecar_of : String → String → ℕ → Facts → String → Sidecar
sidecar_of path signature scan_id facts name = record {
  name = name;
  orig_path = path;
  orig_mode = facts.mode;
  signature = signature;
  sha256 = facts.sha256;
  scan_id = scan_id;
  size = facts.size;
  moved_at = facts.now;
}

-- Whatever the system answers, `Hold` ends in one of three ways: it returns the sidecar and has
-- taken the file away from its path; it fails and has left the file at its path; or the write of the
-- sidecar failed, and then it fails although the file is gone from its path.
pub hold_outcome :
    (host : Host) (join : String → String) (path signature : String) (scan_id : ℕ) (facts : Facts)
    (name : String)
    → path ≢ join name
    → let (held, u) = hold host join (some path) signature scan_id facts (some name) [] in
      ((held ≡ some (sidecar_of path signature scan_id facts name)) × (is_gone path u ≡ true))
      ⊎ ((held ≡ none) × (is_gone path u ≡ false))
      ⊎ ((held ≡ none) × (is_gone path u ≡ true) × (write_failed (sidecar_path join name) u ≡ true))
unfolding hold
hold_outcome host join path signature scan_id facts name n =
    let (fit, t) = examine host path [] in
    let (gone, left) = examine_keeps host path path [] in
    let (gone', left') = examine_keeps host path (join name) [] in
    ground (
      arith,
      gone,
      left',
      store_as_outcome host join (sidecar_of path signature scan_id facts name) t n left',
    )

abbrev pub is_put_back : RestoreResult → Bool
is_put_back put_back = true
is_put_back _ = false

-- The path was looked up and nothing was there.
abbrev pub was_free : String → Trace → Bool
was_free path [] = false
was_free path ((lstat p, false) ∷ t) = p == path || was_free path t
was_free path (_ ∷ t) = was_free path t

was_free-move_file :
    (host : Host) (src dst path : String) (t : Trace)
    → was_free path (move_file host src dst t).1 ≡ was_free path t
unfolding move_file
was_free-move_file host src dst path t = ground arith

-- Whatever the system answers: where `Restore` reports success, the blob was moved from the store to the
-- original path, which was found free before; where it reports an error, the blob is still in the store.
pub restore_outcome :
    (host : Host) (join parent_of : String → String) (sc : Sidecar)
    → join sc.name ≢ sc.orig_path
    → let (result, u) = restore host join parent_of sc [] in
      ((is_put_back result ≡ true)
        × (is_gone (join sc.name) u ≡ true)
        × (is_moved (join sc.name) sc.orig_path u ≡ true)
        × (was_free sc.orig_path u ≡ true))
      ⊎ ((is_put_back result ≡ false) × (is_gone (join sc.name) u ≡ false))
unfolding restore
restore_outcome host join parent_of sc n =
    let parent = parent_of sc.orig_path in
    let t₁ = (ask host (stat (join sc.name)) []).1 in
    let t₂ = (ask host (stat parent) t₁).1 in
    let t₃ = (ask host (is_dir parent) t₂).1 in
    let t₄ = (ask host (lstat sc.orig_path) t₃).1 in
    let left : is_left sc.orig_path t₄ ≡ false = ground arith in
    let gone : is_gone (join sc.name) t₄ ≡ false = ground arith in
    let (taken, kept) = move_file_outcome host (join sc.name) sc.orig_path t₄ n left in
    ground (
      arith,
      taken,
      kept,
      gone,
      move_file-is_moved host (join sc.name) sc.orig_path t₄,
      was_free-move_file host (join sc.name) sc.orig_path sc.orig_path t₄,
      eq_iff sc.orig_path sc.orig_path,
    )
