-- ===== src/Clam/Conf/Lines.antt =====
-- What a write leaves in a settings file, key by key.

use clamav_webui.Prelude.{
  sym, String, ◌≡◌, refl, Bool, ◌||◌, none, some, List, [], ◌∷◌, append-nil, ◌==◌, string_eq,
  contains, map, keep, keep-append, any, All, arith, eq_iff, if◌then◌else◌, Bool-cases,
  Option-cases, inl, inr,
}
use clamav_webui.Clam.Conf.{
  ConfLib, Updates, lookup, setting, settings, key_of, rewrite, append_missing, new_lines,
}

abbrev pub has_key : ConfLib → String → String → Bool
has_key lib name line = key_of lib line == name

-- The line of each new value is read under its key.
abbrev pub IsReadable : ConfLib → Updates → Type 0
IsReadable lib [] = Unit
IsReadable lib ((name, vals) ∷ rows) =
    All (λ v. key_of lib (setting name v) ≡ name) vals × IsReadable lib rows

-- No key is updated twice, as in a map.
abbrev pub IsMap : Updates → Type 0
IsMap [] = Unit
IsMap ((name, vals) ∷ rows) = (lookup name rows ≡ none) × IsMap rows

module _ (lib : ConfLib) (n : String) where
  lookup-IsReadable :
      (rows : Updates) (m : String) (vals : List String)
      → IsReadable lib rows
      → lookup m rows ≡ some vals
      → All (λ v. key_of lib (setting m v) ≡ m) vals
  lookup-IsReadable [] m vals h e = ground (arith, e)
  lookup-IsReadable ((k, kvals) ∷ rows) m vals h e = elim (Bool-cases (k == m)) [
    | inl same ↦
        let is_key : k ≡ m = ground (arith, same, eq_iff k m) in
        let is_vals : kvals ≡ vals = ground (arith, same, e) in
        rw (sym is_vals) (rw (sym is_key) h.0)
    | inr other ↦ lookup-IsReadable rows m vals h.1 (ground (arith, other, e))
  ]

  keep-settings :
      (m : String) (vals : List String)
      → All (λ v. key_of lib (setting m v) ≡ m) vals
      → keep (has_key lib n) (settings m vals) ≡ (if m == n then settings n vals else [])
  keep-settings m [] h = ground arith
  keep-settings m (v ∷ vals) h = ground (arith, h.0, keep-settings m vals h.1, eq_iff m n)

  keep-append_missing :
      (rows : Updates) (written : List String)
      → IsReadable lib rows
      → IsMap rows
      → keep (has_key lib n) (append_missing rows written) ≡ (elim (lookup n rows) [
        | none ↦ []
        | some vals ↦ if contains written n then [] else settings n vals
      ])
  unfolding append_missing
  keep-append_missing [] written h d = refl
  keep-append_missing ((m, vals) ∷ rows) written h d = ground (
    arith,
    eq_iff m n,
    d.0,
    keep-settings m vals h.0,
    keep-append (has_key lib n) (settings m vals) (append_missing rows written),
    append-nil (settings n vals),
    keep-append_missing rows written h.1 d.1,
  )

  -- What the rewriting leaves of key `n`, and whether it has written it.
  abbrev rest_of : Updates → List String → List String → List String
  rest_of cleaned written raws = elim (lookup n cleaned) [
    | none ↦ keep (has_key lib n) (map lib.strip raws)
    | some vals ↦
        if contains written n
        then []
        else if any (has_key lib n) (map lib.strip raws)
        then settings n vals
        else []
  ]

  -- The same of the keys that were written.
  abbrev written_after : Updates → List String → List String → Bool
  written_after cleaned written raws = elim (lookup n cleaned) [
    | none ↦ contains written n
    | some vals ↦ contains written n || any (has_key lib n) (map lib.strip raws)
  ]

  keep-rewrite :
      (cleaned : Updates) (written raws : List String)
      → IsReadable lib cleaned
      → (keep (has_key lib n) (rewrite lib cleaned written raws).0 ≡ rest_of cleaned written raws)
        × (contains (rewrite lib cleaned written raws).1 n ≡ written_after cleaned written raws)
  unfolding rewrite
  keep-rewrite cleaned written [] h = (ground arith, ground arith)
  keep-rewrite cleaned written (raw ∷ raws) h =
      let line = lib.strip raw in
      let key = key_of lib line in
      let same = keep-rewrite cleaned written raws h in
      let more = keep-rewrite cleaned (key ∷ written) raws h in
      elim (Option-cases (lookup key cleaned)) [
        | inl e ↦ (ground (arith, e, eq_iff key n, same), ground (arith, e, eq_iff key n, same))
        | inr (vals, e) ↦
            let readable = keep-settings key vals (lookup-IsReadable cleaned key vals h e) in
            (
              ground (
                arith,
                e,
                eq_iff key n,
                same,
                more,
                readable,
                keep-append (has_key lib n) (settings key vals)
                    (rewrite lib cleaned (key ∷ written) raws).0,
                append-nil (settings n vals),
              ),
              ground (arith, e, eq_iff key n, same, more),
            )
      ]

-- The lines of a settings file after a write, key by key, where each new value is read under its key: an
-- updated key has exactly its new values, in their order, and every other key (and, as the
-- key "", the blank lines and the comments) has the lines that it had.
pub keep-new_lines :
    (lib : ConfLib) (n : String) (cleaned : Updates) (raws : List String)
    → IsReadable lib cleaned
    → IsMap cleaned
    → keep (has_key lib n) (new_lines lib cleaned raws) ≡ (elim (lookup n cleaned) [
      | none ↦ keep (has_key lib n) (map lib.strip raws)
      | some vals ↦ settings n vals
    ])
unfolding new_lines
keep-new_lines lib n cleaned raws h d =
    let (out, written) = rewrite lib cleaned [] raws in
    let parts = keep-append (has_key lib n) out (append_missing cleaned written) in
    let old = keep-rewrite lib n cleaned [] raws h in
    let added = keep-append_missing lib n cleaned written h d in
    elim (Option-cases (lookup n cleaned)) [
      | inl e ↦
          ground
            (arith, e, parts, old, added, append-nil (keep (has_key lib n) (map lib.strip raws)))
      | inr (vals, e) ↦ ground (arith, e, parts, old, added, append-nil (settings n vals))
    ]
