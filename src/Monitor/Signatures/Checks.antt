-- ===== src/Monitor/Signatures/Checks.antt =====
-- The two readers of a settings file: `confValue` and `ReadConf`.
use clamav_webui.Prelude.{
  String, ◌≡◌, sym, refl, List, [], ◌∷◌, ◌==◌, string_eq, arith, map, if◌then◌else◌, Option-cases,
  inl, inr,
}
use clamav_webui.Clam.Conf.{ConfLib}
use clamav_webui.Clam.Conf.Reading.{read_values, values_in, entry_of, entry, add_value}
use clamav_webui.Monitor.Signatures.{conf_value, value_or}

abbrev pub first_or_empty : List String → String
first_or_empty [] = ""
first_or_empty (v ∷ vals) = v

module _ (lib : ConfLib) (key : String) where
  -- The step of one reader on a line, given what the other reads in the next lines
  step :
      (line : String) (vals : List String)
      → first_or_empty (add_value key (entry_of lib line) vals) ≡ (
          let t = lib.trim line in
          let rest = first_or_empty vals in
          if t == ""
          then rest
          else if lib.is_comment t
          then rest
          else if lib.first_field t == key
          then value_or rest (lib.other_fields t)
          else rest)
  unfolding entry_of entry add_value value_or
  step line vals = elim (Option-cases (lib.other_fields (lib.trim line))) [
    | inl e ↦ ground (arith, e)
    | inr (v, e) ↦ ground (arith, e)
  ]

  -- Where trimming a text also removes the "\r" at its end: the value that the signatures view reads of a key is the first
  -- of those that the settings view shows for it, and empty if that shows none.
  pub conf_value-eq-read_values :
      ((s : String) → lib.trim (lib.strip s) ≡ lib.trim s)
      → (raws : List String) → conf_value lib key raws ≡ first_or_empty (read_values lib key raws)
  unfolding conf_value read_values values_in
  conf_value-eq-read_values h [] = refl
  conf_value-eq-read_values h (raw ∷ raws) =
      rw (conf_value-eq-read_values h raws)
        (rw (← h raw) (sym (step (lib.strip raw) (values_in lib key (map lib.strip raws)))))
