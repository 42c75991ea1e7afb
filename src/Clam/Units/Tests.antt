-- ===== src/Clam/Units/Tests.antt =====
-- What is read of an active and of a missing unit.
use clamav_webui.Prelude.{◌≡◌, refl, [], ◌∷◌, ◌++◌, map, All, arith, true, false}
use clamav_webui.Prelude.Int.{pos}
use clamav_webui.Prelude.Bytes.{
  codes, split_at, trim_right, cut_suffix, put_head, replace_all, cut_prefix,
}
use clamav_webui.Clam.Exec.Output.{unlines}
use clamav_webui.Clam.Units.{
  UnitLib, parse_kv, cut_equals, find_value, value_of, stem_of, state_from_kv, service, services,
  split_blocks, shown_state, state_or_absent, text_ltb,
}
use clamav_webui.Clam.Units.Shown.{
  Properties, print_pair, pairs_of, state_of, IsPair, service-unlines,
}

abbrev lib : UnitLib
lib = record { timestamp = λ s. pos 1700000000; trim = λ s. s }

abbrev running : Properties
running = record {
  stem = codes "clamav-daemon";
  load = codes "loaded";
  active = codes "active";
  sub = codes "running";
  enabled = codes "enabled";
  timestamp = codes "Mon";
}

pairs_shown : All IsPair (pairs_of running)
unfolding trim_right
pairs_shown = (
  (ground arith, refl, refl, refl, refl),
  (
    (ground arith, refl, refl, refl, refl),
    (
      (ground arith, refl, refl, refl, refl),
      (
        (ground arith, refl, refl, refl, refl),
        ((ground arith, refl, refl, refl, refl), ((ground arith, refl, refl, refl, refl), tt)),
      ),
    ),
  ),
)

service-unlines_example :
    service lib (codes "clamav-daemon") (unlines (map print_pair (pairs_of running)))
    ≡ state_of lib (codes "clamav-daemon") running
service-unlines_example = service-unlines lib (codes "clamav-daemon") running pairs_shown

one_shown :
    map
      (λ st. st.installed)
      (services lib
        (codes "Id=clamav-daemon.service" ++ 13 ∷ 10 ∷ codes "LoadState=loaded" ++ 10 ∷ []))
    ≡ false ∷ true ∷ false ∷ []
unfolding services split_blocks shown_state state_or_absent text_ltb parse_kv cut_equals find_value
    value_of stem_of state_from_kv split_at trim_right cut_suffix put_head replace_all cut_prefix
one_shown = refl
