-- ===== src/Clam/Units/Shown.antt =====
-- What is read of the properties that systemctl shows of a unit.
use clamav_webui.Prelude.{
  ◌≡◌, ◌≢◌, refl, ap, ◌∙◌, Text, false, some, List, [], ◌∷◌, ◌++◌, map, All, contains, text_eq,
  nat_eq, nat_beq, ◌==◌, arith, Bool-cases, inl, inr, if◌then◌else◌,
}
use clamav_webui.Prelude.Int.{pos}
use clamav_webui.Prelude.Bytes.{codes, split_at, trim_right}
use clamav_webui.Prelude.Bytes.Laws.{
  trim_right-append, trim_right_cons, split_at-append, contains-append, cut_suffix-append,
}
use clamav_webui.Clam.Exec.Output.{unlines}
use clamav_webui.Clam.Units.{
  Pairs, UnitLib, ServiceState, cut_equals, put_key, add_pair, is_return, parse_lines, parse_kv,
  find_value, later_or, value_of, or_empty, stem_of, without_suffix, state_from_kv, service,
}

abbrev pub print_pair : Text × Text → Text
print_pair (k, v) = k ++ b'=' ∷ v

-- A pair that stands on one line: its key is not empty and has no "=", and its value does not end in "\r".
abbrev pub IsPair : Text × Text → Type 0
IsPair (k, v) =
    (k ≢ [])
    × (contains k b'=' ≡ false)
    × (contains k 10 ≡ false)
    × (contains v 10 ≡ false)
    × (trim_right is_return v ≡ v)

cut_equals-print_pair :
    (k v : Text) → contains k b'=' ≡ false → cut_equals (k ++ b'=' ∷ v) ≡ some (k, v)
unfolding cut_equals put_key
cut_equals-print_pair [] v h = refl
cut_equals-print_pair (c ∷ k) v h = elim (Bool-cases (nat_beq c b'=')) [
  | inl is_equals ↦ absurd (ground (arith, is_equals, h))
  | inr other ↦ rw other (rw (cut_equals-print_pair k v (ground (arith, other, h))) refl)
]

parse_lines-print_pair :
    (k v : Text) (lines : List Text)
    → IsPair (k, v)
    → parse_lines (print_pair (k, v) ∷ lines) ≡ (k, v) ∷ parse_lines lines
unfolding parse_lines add_pair
parse_lines-print_pair [] v lines h = absurd (h.0 refl)
parse_lines-print_pair (c ∷ k) v lines h =
    rw (trim_right-append is_return (c ∷ k) b'=' v (trim_right_cons is_return b'=' v refl h.4))
      (rw (cut_equals-print_pair (c ∷ k) v h.1) refl)

nothing_shown : parse_kv [] ≡ []
unfolding parse_kv parse_lines split_at cut_equals add_pair trim_right
nothing_shown = refl

-- The pairs that are shown, one to a line, are the pairs that are read.
pub parse_kv-unlines : (kv : Pairs) → All IsPair kv → parse_kv (unlines (map print_pair kv)) ≡ kv
unfolding parse_kv
parse_kv-unlines [] h = nothing_shown
parse_kv-unlines ((k, v) ∷ kv) h =
    rw
      (split_at-append 10 (print_pair (k, v)) (unlines (map print_pair kv))
        (ground (arith, h.0, contains-append k (b'=' ∷ v) 10)))
      (parse_lines-print_pair k v (split_at 10 (unlines (map print_pair kv))) h.0
        ∙ ap (λ (rest : Pairs). (k, v) ∷ rest) (parse_kv-unlines kv h.1))

-- What systemctl shows of a unit
pub record Properties : Type 0 where
  pub stem : Text
  pub load : Text
  pub active : Text
  pub sub : Text
  pub enabled : Text
  pub timestamp : Text

abbrev pub pairs_of : Properties → Pairs
pairs_of p =
    (codes "Id", p.stem ++ codes ".service")
    ∷ (codes "LoadState", p.load)
    ∷ (codes "ActiveState", p.active)
    ∷ (codes "SubState", p.sub)
    ∷ (codes "UnitFileState", p.enabled)
    ∷ (codes "ActiveEnterTimestamp", p.timestamp)
    ∷ []

abbrev pub state_of : UnitLib → Text → Properties → ServiceState
state_of lib unit p = record {
  unit = if p.stem == [] then unit else p.stem;
  load = p.load;
  active = p.active;
  sub = p.sub;
  enabled = p.enabled;
  installed = p.load == codes "loaded";
  since_unix = if p.timestamp == [] then pos 0 else lib.timestamp p.timestamp;
}

state_from_kv-pairs_of :
    (lib : UnitLib) (p : Properties)
    → (state_from_kv lib (pairs_of p)) ≡ record (state_of lib [] p) { unit = p.stem }
unfolding state_from_kv value_of find_value later_or or_empty stem_of without_suffix
state_from_kv-pairs_of lib p = rw (cut_suffix-append p.stem (codes ".service")) refl

-- The state of a unit is read as systemctl shows it, where no value has a line break or ends in "\r": under the name of
-- the unit that was asked for if none is shown, and installed exactly if it is loaded.
pub service-unlines :
    (lib : UnitLib) (unit : Text) (p : Properties)
    → All IsPair (pairs_of p)
    → service lib unit (unlines (map print_pair (pairs_of p))) ≡ state_of lib unit p
unfolding service
service-unlines lib unit p h =
    rw (parse_kv-unlines (pairs_of p) h) (rw (state_from_kv-pairs_of lib p) (ground arith))
