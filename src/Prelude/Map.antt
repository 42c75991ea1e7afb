-- ===== src/Prelude/Map.antt =====
-- Go's `map` as the function that reads it: `none` is a missing key. The program ranges over a map
-- only to delete entries, never to number them.
use mathlib.Core.Path.{◌≡◌}
use mathlib.Core.Bool.{Bool}
use mathlib.Core.Option.{Option, none, some}
use clamav_webui.Prelude.Tests.{if◌then◌else◌}
use clamav_webui.Prelude.Eq.{Comparable, ◌==◌, ==_refl}

abbrev pub Map {ℓ κ} : Type ℓ → Type κ → Type (ℓ ⊔ κ)
Map K V = K → Option V

module _ {ℓ κ} {K : Type ℓ} {V : Type κ} where
  -- make(map[K]V)
  abbrev pub empty : Map K V
  empty k = none

  -- for k, v := range m { if test(v) { delete(m, k) } }
  abbrev pub delete_if : (V → Bool) → Map K V → Map K V
  delete_if test m k = elim (m k) [ none ↦ none | some v ↦ if test v then none else some v ]

module _ {ℓ κ} {K : Type ℓ} {V : Type κ} ⦃e : Comparable K⦄ where
  -- m[k] = v
  abbrev pub insert : K → V → Map K V → Map K V
  insert k v m j = if k == j then some v else m j

  -- delete(m, k)
  abbrev pub delete : K → Map K V → Map K V
  delete k m j = if k == j then none else m j

  pub insert_self : (k : K) (v : V) (m : Map K V) → insert k v m k ≡ some v
  insert_self k v m = rw ==_refl

  pub delete_self : (k : K) (m : Map K V) → delete k m k ≡ none
  delete_self k m = rw ==_refl
