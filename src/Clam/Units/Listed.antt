-- ===== src/Clam/Units/Listed.antt =====
-- The list of the units.
use clamav_webui.Prelude.{
  ◌≡◌, refl, Text, some, List, [], ◌∷◌, map, text_eq, text_beq_iff, arith, Option-cases, inl, inr,
}
use clamav_webui.Prelude.Bytes.{codes, replace_all}
use clamav_webui.Clam.Units.{
  UnitLib, ServiceState, parse_kv, state_from_kv, shown_state, state_or_absent, split_blocks,
  insert_state, sort_states, text_ltb, services,
}

-- A state that was found is that of the unit.
shown_state-unit :
    (lib : UnitLib) (unit : Text) (blocks : List Text) (st : ServiceState)
    → shown_state lib unit blocks ≡ some st
    → st.unit ≡ unit
unfolding shown_state
shown_state-unit lib unit [] st h = ground (arith, h)
shown_state-unit lib unit (block ∷ blocks) st h =
    let here = state_from_kv lib (parse_kv block) in
    elim (Option-cases (shown_state lib unit blocks)) [
      | inl e ↦ ground (arith, h, e, text_beq_iff here.unit unit)
      | inr (found, e) ↦ shown_state-unit lib unit blocks st (ground (arith, h, e))
    ]

state_or_absent-unit :
    (lib : UnitLib) (unit : Text) (blocks : List Text)
    → (state_or_absent unit (shown_state lib unit blocks)).unit ≡ unit
unfolding state_or_absent
state_or_absent-unit lib unit blocks = elim (Option-cases (shown_state lib unit blocks)) [
  | inl e ↦ rw e refl
  | inr (st, e) ↦ rw e (shown_state-unit lib unit blocks st e)
]

sort_states-three :
    (a b c : ServiceState)
    → a.unit ≡ codes "clamav-daemon"
    → b.unit ≡ codes "clamav-freshclam"
    → c.unit ≡ codes "clamav-clamonacc"
    → sort_states (a ∷ b ∷ c ∷ []) ≡ c ∷ a ∷ b ∷ []
unfolding sort_states insert_state text_ltb
sort_states-three a b c ha hb hc = rw (ha, hb, hc) refl

-- Whatever systemctl shows, the list has exactly the three managed units, in the order of their names.
pub services-units :
    (lib : UnitLib) (out : Text)
    → map (λ st. st.unit) (services lib out)
      ≡ codes "clamav-clamonacc" ∷ codes "clamav-daemon" ∷ codes "clamav-freshclam" ∷ []
unfolding services
services-units lib out =
    let blocks = split_blocks (replace_all (13 ∷ 10 ∷ []) (10 ∷ []) out) in
    let state = λ (u : Text). state_or_absent u (shown_state lib u blocks) in
    let a = state_or_absent-unit lib (codes "clamav-daemon") blocks in
    let b = state_or_absent-unit lib (codes "clamav-freshclam") blocks in
    let c = state_or_absent-unit lib (codes "clamav-clamonacc") blocks in
    rw
      (sort_states-three (state (codes "clamav-daemon")) (state (codes "clamav-freshclam"))
        (state (codes "clamav-clamonacc")) a b c)
      (ground (arith, a, b, c))
