-- ===== src/Scans/Targets.antt =====
-- `sanitizeScanPaths` of internal/api/scans.go: the targets that a request or a schedule may name.
-- `filepath.ToSlash` changes nothing on the system that the program runs on and is left out.
pub mod Confined
use clamav_webui.Prelude.{
  ℕ, Text, Bool, true, false, not, ◌&&◌, ◌||◌, Option, none, some, List, [], ◌∷◌, ◌++◌, ◌==◌,
  text_eq, nat_beq, ltb, length, contains, if◌then◌else◌,
}

-- strings.TrimSpace and path.Clean
pub record PathLib : Type 0 where
  pub trim : Text → Text
  pub clean : Text → Text

abbrev pub slash : Text
slash = b'/' ∷ []

-- strings.HasPrefix, the prefix first
abbrev pub begins_with : Text → Text → Bool
begins_with [] s = true
begins_with (c ∷ prefix) [] = false
begins_with (c ∷ prefix) (d ∷ s) = nat_beq c d && begins_with prefix s

abbrev without_slash : Text → Text
without_slash [] = []
without_slash (c ∷ s) = if nat_beq c b'/' then s else c ∷ s

abbrev pub root_of : PathLib → Text → Text
root_of lib browse_root = lib.clean (slash ++ without_slash browse_root)

abbrev pub is_within : Text → Text → Bool
is_within root p = root == slash || p == root || begins_with (root ++ slash) p

put_first : Text → Option (List Text) → Option (List Text)
put_first p none = none
put_first p (some ps) = some (p ∷ ps)

-- What the loop makes of one target: an error, nothing, or a clean path.
pub data Target : Type 0 where
  refused blank : Target
  target : Text → Target

unfoldable pub classify : PathLib → Text → Text → Target
classify lib root p =
    if lib.trim p == []
    then blank
    else if not (begins_with slash (lib.trim p))
    then refused
    else if not (is_within root (lib.clean (lib.trim p)))
    then refused
    else target (lib.clean (lib.trim p))

-- The loop, with the keys of `seen`
sanitize_in : PathLib → Text → List Text → List Text → Option (List Text)
sanitize_in lib root seen [] = some []
sanitize_in lib root seen (p ∷ ps) = elim (classify lib root p) [
  | refused ↦ none
  | blank ↦ sanitize_in lib root seen ps
  | target c ↦ elim (contains seen c) [
    | true ↦ sanitize_in lib root seen ps
    | false ↦ put_first c (sanitize_in lib root (c ∷ seen) ps)
  ]
]

check_count : Option (List Text) → Option (List Text)
check_count none = none
check_count (some []) = none
check_count (some (p ∷ ps)) = if ltb 64 (length (p ∷ ps)) then none else some (p ∷ ps)

-- The result is `none` for an error.
unfoldable pub sanitize_scan_paths : PathLib → Text → List Text → Option (List Text)
unfolding sanitize_in put_first check_count
sanitize_scan_paths lib browse_root paths =
    check_count (sanitize_in lib (root_of lib browse_root) [] paths)
