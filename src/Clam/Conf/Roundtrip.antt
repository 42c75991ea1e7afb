-- ===== src/Clam/Conf/Roundtrip.antt =====
-- What is read of a settings file after a write.
use clamav_webui.Prelude.{
  ◌==◌, string_eq, none, some, All-map, All-map, All-append, Option-cases, String, ◌≡◌, ◌≢◌, refl,
  sym, ap, ◌∙◌, false, some, List, [], ◌∷◌, keep, All, string_eq, eq_iff, arith, Bool-cases, inl,
  inr,
}
use clamav_webui.Clam.Conf.{
  new_lines, lookup, contains, rewrite, map, append_missing, Updates, ConfLib, setting, settings,
  key_of,
}
use clamav_webui.Clam.Conf.Lines.{keep-new_lines, IsReadable, IsMap, has_key}
use clamav_webui.Clam.Conf.Reading.{read_values, entry_of, entry, add_value, values_in}

module _ (lib : ConfLib) where
  -- A line with another key adds nothing.
  entry_of-other :
      (name line : String) (vals : List String)
      → has_key lib name line ≡ false
      → add_value name (entry_of lib line) vals ≡ vals
  unfolding entry_of entry add_value
  entry_of-other name line vals h = ground (arith, h)

  values_in-line :
      (name line : String) (lines : List String)
      → values_in lib name (line ∷ lines)
        ≡ add_value name (entry_of lib line) (values_in lib name lines)
  unfolding values_in
  values_in-line name line lines = refl

  values_in-keep :
      (name : String) (lines : List String)
      → values_in lib name (keep (has_key lib name) lines) ≡ values_in lib name lines
  values_in-keep name [] = refl
  values_in-keep name (line ∷ lines) = elim (Bool-cases (has_key lib name line)) [
    | inl same ↦ rw same (
        values_in-line name line (keep (has_key lib name) lines)
        ∙ ap (add_value name (entry_of lib line)) (values_in-keep name lines)
        ∙ sym (values_in-line name line lines))
    | inr other ↦ rw other (
        values_in-keep name lines
        ∙ sym (entry_of-other name line (values_in lib name lines) other)
        ∙ sym (values_in-line name line lines))
  ]

  -- The value of each new line is read back.
  abbrev pub IsReturned : String → List String → Type 0
  IsReturned name vals =
      All
        (λ v.
          (key_of lib (setting name v) ≡ name)
          × (lib.other_fields (lib.trim (setting name v)) ≡ some v)
          × (lib.strip (setting name v) ≡ setting name v))
        vals

  values_in-settings :
      (name : String) (vals : List String)
      → name ≢ ""
      → IsReturned name vals
      → values_in lib name (settings name vals) ≡ vals
  unfolding values_in entry_of entry add_value
  values_in-settings name [] n h = refl
  values_in-settings name (v ∷ vals) n h =
      ground (arith, h.0, n, values_in-settings name vals n h.1, eq_iff name name)

  abbrev pub AreReturned : Updates → Type 0
  AreReturned [] = Unit
  AreReturned ((name, vals) ∷ rows) = IsReturned name vals × AreReturned rows

  AreReturned-IsReadable : (rows : Updates) → AreReturned rows → IsReadable lib rows
  AreReturned-IsReadable [] h = tt
  AreReturned-IsReadable ((name, vals) ∷ rows) h =
      (All-map (λ v k. k.0) vals h.0, AreReturned-IsReadable rows h.1)

  lookup-IsReturned :
      (rows : Updates) (m : String) (vals : List String)
      → AreReturned rows
      → lookup m rows ≡ some vals
      → IsReturned m vals
  lookup-IsReturned [] m vals h e = ground (arith, e)
  lookup-IsReturned ((k, kvals) ∷ rows) m vals h e = elim (Bool-cases (k == m)) [
    | inl same ↦
        let is_key : k ≡ m = ground (arith, same, eq_iff k m) in
        let is_vals : kvals ≡ vals = ground (arith, same, e) in
        rw (sym is_vals) (rw (sym is_key) h.0)
    | inr other ↦ lookup-IsReturned rows m vals h.1 (ground (arith, other, e))
  ]

  abbrev AreStripped : List String → Type 0
  AreStripped lines = All (λ l. lib.strip l ≡ l) lines

  map-strip : (lines : List String) → AreStripped lines → map lib.strip lines ≡ lines
  map-strip [] h = refl
  map-strip (l ∷ lines) h = rw h.0 (rw (map-strip lines h.1) refl)

  settings-AreStripped :
      (name : String) (vals : List String) → IsReturned name vals → AreStripped (settings name vals)
  settings-AreStripped name [] h = tt
  settings-AreStripped name (v ∷ vals) h = (h.0.2, settings-AreStripped name vals h.1)

  append_missing-AreStripped :
      (rows : Updates) (written : List String)
      → AreReturned rows
      → AreStripped (append_missing rows written)
  unfolding append_missing
  append_missing-AreStripped [] written h = tt
  append_missing-AreStripped ((name, vals) ∷ rows) written h =
      let rest = append_missing-AreStripped rows written h.1 in
      elim (Bool-cases (contains written name)) [
        | inl old ↦ rw old rest
        | inr new ↦
            rw new (All-append _ (settings name vals) _ (settings-AreStripped name vals h.0) rest)
      ]

  rewrite-AreStripped :
      (cleaned : Updates) (written raws : List String)
      → ((s : String) → lib.strip (lib.strip s) ≡ lib.strip s)
      → AreReturned cleaned
      → AreStripped (rewrite lib cleaned written raws).0
  unfolding rewrite
  rewrite-AreStripped cleaned written [] idem h = tt
  rewrite-AreStripped cleaned written (raw ∷ raws) idem h =
      let line = lib.strip raw in
      let key = key_of lib line in
      let same = rewrite-AreStripped cleaned written raws idem h in
      let more = rewrite-AreStripped cleaned (key ∷ written) raws idem h in
      elim (Option-cases (lookup key cleaned)) [
        | inl e ↦ rw (e, rewrite) (idem raw, same)
        | inr (vals, e) ↦ elim (Bool-cases (contains written key)) [
          | inl old ↦ rw (e, rewrite) (rw old same)
          | inr new ↦
              rw (e, rewrite)
                (rw new (
                  All-append _ (settings key vals) _
                    (settings-AreStripped key vals (lookup-IsReturned cleaned key vals h e)) more))
        ]
      ]

new_lines-AreStripped :
    (lib : ConfLib) (cleaned : Updates) (raws : List String)
    → ((s : String) → lib.strip (lib.strip s) ≡ lib.strip s)
    → AreReturned lib cleaned
    → AreStripped lib (new_lines lib cleaned raws)
unfolding new_lines
new_lines-AreStripped lib cleaned raws idem h =
    let (out, written) = rewrite lib cleaned [] raws in
    All-append _ out _ (rewrite-AreStripped lib cleaned [] raws idem h)
      (append_missing-AreStripped lib cleaned written h)

-- What is read after a write, where each new value is read back from its own line, no key is updated
-- twice, and trimming a line again changes nothing: an updated key has exactly the values that were
-- written, in their order, and every other key what it had before.
pub read_values-new_lines :
    (lib : ConfLib) (name : String) (cleaned : Updates) (raws : List String)
    → name ≢ ""
    → ((s : String) → lib.strip (lib.strip s) ≡ lib.strip s)
    → AreReturned lib cleaned
    → IsMap cleaned
    → read_values lib name (new_lines lib cleaned raws)
      ≡ (elim (lookup name cleaned) [ none ↦ read_values lib name raws | some vals ↦ vals ])
unfolding read_values
read_values-new_lines lib name cleaned raws n idem h d =
    let lines = new_lines lib cleaned raws in
    let kept = keep-new_lines lib name cleaned raws (AreReturned-IsReadable lib cleaned h) d in
    rw (map-strip lib lines (new_lines-AreStripped lib cleaned raws idem h)) (
      rw (sym (values_in-keep lib name lines)) (
        rw kept (elim (Option-cases (lookup name cleaned)) [
          | inl e ↦ rw e (values_in-keep lib name (map lib.strip raws))
          | inr (vals, e) ↦
              rw e
                (values_in-settings lib name vals n (lookup-IsReturned lib cleaned name vals h e))
        ])))
