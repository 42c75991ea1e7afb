-- ===== src/Clam/Journal.antt =====
-- `ParseOnAccessFound` of internal/clamav/services.go: the file and the signature in a line of clamd's
-- journal. The optional `ScanOnAccess:` of the expression has no "/", so that the first match is the
-- first "/" at which a path with its rest begins.
pub mod Colons
use clamav_webui.Prelude.{
  ℕ, Text, Bool, true, false, not, ◌&&◌, Option, none, some, List, [], ◌∷◌, ◌++◌, nat_beq,
  if◌then◌else◌,
}
use clamav_webui.Prelude.Bytes.{codes, is_space, cut_prefix, cut_suffix, take_while, trim_left}
use clamav_webui.Clam.Scan.{found_end, separator}

abbrev pub is_no_colon : ℕ → Bool
is_no_colon c = not (nat_beq c b':')

-- `\S.*?` before the end
read_sig : Text → Option Text → Option (Text × Text)
read_sig path none = none
read_sig path (some []) = none
read_sig path (some (c ∷ sig)) = if is_space c then none else some (path, c ∷ sig)

-- The part behind the path
read_rest : Text → Option Text → Option (Text × Text)
read_rest path none = none
read_rest path (some rest) = read_sig path (cut_suffix found_end rest)

-- `(/\S[^:]*): (\S.*?) FOUND$` from the first byte on
unfoldable pub match_path : Text → Option (Text × Text)
unfolding read_rest read_sig
match_path [] = none
match_path (c ∷ []) = none
match_path (c ∷ d ∷ s) =
    if nat_beq c b'/' && not (is_space d)
    then read_rest (c ∷ d ∷ take_while is_no_colon s)
        (cut_prefix separator (trim_left is_no_colon s))
    else none

-- The leftmost match
unfoldable pub find_path : Text → Option (Text × Text)
find_path [] = none
find_path (c ∷ s) =
    let later = find_path s in elim (match_path (c ∷ s)) [ none ↦ later | some found ↦ some found ]

trim_both : (Text → Text) → Option (Text × Text) → Option (Text × Text)
trim_both trim none = none
trim_both trim (some (path, sig)) = some (trim path, trim sig)

-- `trim` is strings.TrimSpace; `\s*` matches nothing behind it.
unfoldable pub parse_on_access_found : (Text → Text) → Text → Option (Text × Text)
unfolding trim_both
parse_on_access_found trim s = trim_both trim (find_path (trim s))
