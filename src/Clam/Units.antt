-- ===== src/Clam/Units.antt =====
-- `Services`, `Service` and `ServiceLogs` of internal/clamav/services.go: the reading of what systemctl
-- shows of the units.
pub mod Shown
pub mod Listed
mod Tests
use clamav_webui.Prelude.{
  ℕ, Text, Bool, true, false, not, ◌&&◌, ◌||◌, Option, none, some, List, [], ◌∷◌, ◌++◌, map,
  nat_beq, ltb, leb, ◌==◌, text_eq, if◌then◌else◌,
}
use clamav_webui.Prelude.Int.{ℤ, pos, negsuc}
use clamav_webui.Prelude.Bytes.{codes, cut_suffix, trim_right, split_at, replace_all}

pub record ServiceState : Type 0 where
  pub unit : Text
  pub load : Text
  pub active : Text
  pub sub : Text
  pub enabled : Text
  pub installed : Bool
  pub since_unix : ℤ

abbrev pub Pairs : Type 0
Pairs = List (Text × Text)

put_key : ℕ → Option (Text × Text) → Option (Text × Text)
put_key c none = none
put_key c (some (k, v)) = some (c ∷ k, v)

-- A line at its first "=", if it has one
unfoldable pub cut_equals : Text → Option (Text × Text)
unfolding put_key
cut_equals [] = none
cut_equals (c ∷ s) =
    let rest = cut_equals s in if nat_beq c b'=' then some ([], s) else put_key c rest

-- A pair whose key is not empty
add_pair : Option (Text × Text) → Pairs → Pairs
add_pair none kv = kv
add_pair (some ([], v)) kv = kv
add_pair (some (c ∷ k, v)) kv = (c ∷ k, v) ∷ kv

abbrev pub is_return : ℕ → Bool
is_return c = nat_beq c 13

parse_lines : List Text → Pairs
parse_lines [] = []
parse_lines (line ∷ lines) = add_pair (cut_equals (trim_right is_return line)) (parse_lines lines)

-- `parseKV`, in the order of the lines
unfoldable pub parse_kv : Text → Pairs
unfolding parse_lines add_pair
parse_kv s = parse_lines (split_at 10 s)

-- kv[key], of which the last line counts; the empty text where there is none
later_or : Option Text → Option Text → Option Text
later_or (some later) here = some later
later_or none here = here

unfoldable pub find_value : Text → Pairs → Option Text
unfolding later_or
find_value key [] = none
find_value key ((k, v) ∷ kv) = later_or (find_value key kv) (if k == key then some v else none)

or_empty : Option Text → Text
or_empty none = []
or_empty (some v) = v

unfoldable pub value_of : Text → Pairs → Text
unfolding or_empty
value_of key kv = or_empty (find_value key kv)

without_suffix : Text → Option Text → Text
without_suffix s none = s
without_suffix s (some stem) = stem

-- strings.TrimSuffix of ".service"
unfoldable pub stem_of : Text → Text
unfolding without_suffix
stem_of s = without_suffix s (cut_suffix (codes ".service") s)

-- What the library reads: the seconds of a timestamp, 0 where it is no timestamp, and TrimSpace
pub record UnitLib : Type 0 where
  pub timestamp : Text → ℤ
  pub trim : Text → Text

unfoldable pub state_from_kv : UnitLib → Pairs → ServiceState
state_from_kv lib kv =
    let ts = value_of (codes "ActiveEnterTimestamp") kv in
    record {
      unit = stem_of (value_of (codes "Id") kv);
      load = value_of (codes "LoadState") kv;
      active = value_of (codes "ActiveState") kv;
      sub = value_of (codes "SubState") kv;
      enabled = value_of (codes "UnitFileState") kv;
      installed = value_of (codes "LoadState") kv == codes "loaded";
      since_unix = if ts == [] then pos 0 else lib.timestamp ts;
    }

-- `Service` on the output of systemctl for a unit
unfoldable pub service : UnitLib → Text → Text → ServiceState
service lib unit out =
    let st = state_from_kv lib (parse_kv out) in
    if st.unit == [] then record st { unit = unit } else st

-- strings.Split at an empty line
put_first : ℕ → List Text → List Text
put_first c [] = (c ∷ []) ∷ []
put_first c (p ∷ ps) = (c ∷ p) ∷ ps

unfoldable pub split_blocks : Text → List Text
unfolding put_first
split_blocks [] = [] ∷ []
split_blocks (c ∷ []) = (c ∷ []) ∷ []
split_blocks (c ∷ d ∷ s) =
    let cut = split_blocks s in
    let kept = split_blocks (d ∷ s) in
    if nat_beq c 10 && nat_beq d 10 then [] ∷ cut else put_first c kept

-- The last state that was shown of a unit
unfoldable pub shown_state : UnitLib → Text → List Text → Option ServiceState
shown_state lib unit [] = none
shown_state lib unit (block ∷ blocks) =
    let later = shown_state lib unit blocks in
    let st = state_from_kv lib (parse_kv block) in
    elim later [
      | some found ↦ some found
      | none ↦
          if not (lib.trim block == []) && not (st.unit == []) && st.unit == unit
          then some st
          else none
    ]

unfoldable pub state_or_absent : Text → Option ServiceState → ServiceState
state_or_absent unit (some st) = st
state_or_absent unit none = record {
  unit = unit;
  load = codes "not-found";
  active = codes "inactive";
  sub = codes "dead";
  enabled = [];
  installed = false;
  since_unix = pos 0;
}

abbrev pub managed_units : List Text
managed_units = codes "clamav-daemon" ∷ codes "clamav-freshclam" ∷ codes "clamav-clamonacc" ∷ []

-- a < b on texts
unfoldable pub text_ltb : Text → Text → Bool
text_ltb s [] = false
text_ltb [] (d ∷ t) = true
text_ltb (c ∷ s) (d ∷ t) =
    let rest = text_ltb s t in if ltb c d then true else if nat_beq c d then rest else false

-- sort.Slice by the unit
unfoldable pub insert_state : ServiceState → List ServiceState → List ServiceState
insert_state st [] = st ∷ []
insert_state st (other ∷ sts) =
    let rest = insert_state st sts in
    if text_ltb other.unit st.unit then other ∷ rest else st ∷ other ∷ sts

unfoldable pub sort_states : List ServiceState → List ServiceState
unfolding insert_state
sort_states [] = []
sort_states (st ∷ sts) = insert_state st (sort_states sts)

-- `Services` on the output of systemctl for all the units
unfoldable pub services : UnitLib → Text → List ServiceState
unfolding sort_states
services lib out =
    let blocks = split_blocks (replace_all (13 ∷ 10 ∷ []) (10 ∷ []) out) in
    sort_states (map (λ u. state_or_absent u (shown_state lib u blocks)) managed_units)

-- The number of lines that `ServiceLogs` asks for
unfoldable pub log_lines : ℤ → ℕ
log_lines (pos n) = if nat_beq n 0 || ltb 2000 n then 200 else n
log_lines (negsuc n) = 200
