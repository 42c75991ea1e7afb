-- ===== src/Db/Table.antt =====
-- A table with INTEGER PRIMARY KEY AUTOINCREMENT: an id is never given twice. The newest row comes
-- first, as in every listing (ORDER BY id DESC).
pub mod Keyed
use clamav_webui.Prelude.{
  ℕ, Bool, suc, ◌<◌, ◌≡◌, refl, Option, none, some, List, [], ◌∷◌, arith, nat_eq, ◌==◌,
  if◌then◌else◌,
}

pub record Table {ℓ} (R : Type ℓ) : Type ℓ where
  pub rows : List (ℕ × R)
  pub last_id : ℕ

module _ {ℓ} {R : Type ℓ} where
  abbrev pub empty : Table R
  empty = record { rows = []; last_id = 0 }

  abbrev pub find_in : ℕ → List (ℕ × R) → Option R
  find_in id [] = none
  find_in id ((i, r) ∷ rows) = if i == id then some r else find_in id rows

  abbrev pub update_in : ℕ → (R → R) → List (ℕ × R) → List (ℕ × R)
  update_in id f [] = []
  update_in id f ((i, r) ∷ rows) = (i, if i == id then f r else r) ∷ update_in id f rows

  abbrev pub update_all_in : (R → R) → List (ℕ × R) → List (ℕ × R)
  update_all_in f [] = []
  update_all_in f ((i, r) ∷ rows) = (i, f r) ∷ update_all_in f rows

  abbrev pub delete_in : ℕ → List (ℕ × R) → List (ℕ × R)
  delete_in id [] = []
  delete_in id ((i, r) ∷ rows) =
      let rest = delete_in id rows in if i == id then rest else (i, r) ∷ rest

  -- A statement, where it is stored
  abbrev pub store : Bool → (Table R → Table R) → Table R → Table R
  store stored statement t = if stored then statement t else t

  -- SELECT … WHERE id=?
  unfoldable pub find : ℕ → Table R → Option R
  find id t = find_in id t.rows

  -- INSERT, with LastInsertId
  unfoldable pub insert : R → Table R → Table R × ℕ
  insert r t = let id = suc t.last_id in (record { rows = (id, r) ∷ t.rows; last_id = id }, id)

  -- UPDATE … WHERE id=?
  unfoldable pub update : ℕ → (R → R) → Table R → Table R
  update id f t = record t { rows = update_in id f t.rows }

  -- UPDATE …, with the condition inside the function
  unfoldable pub update_all : (R → R) → Table R → Table R
  update_all f t = record t { rows = update_all_in f t.rows }

  -- DELETE … WHERE id=?
  unfoldable pub delete : ℕ → Table R → Table R
  delete id t = record t { rows = delete_in id t.rows }

  abbrev pub map_option : (R → R) → Option R → Option R
  map_option f none = none
  map_option f (some r) = some (f r)

  -- No two rows have the same id.
  abbrev pub IsKeyed : List (ℕ × R) → Type ℓ
  IsKeyed [] = Unit
  IsKeyed ((i, r) ∷ rows) = (find_in i rows ≡ none) × IsKeyed rows

  -- No id above the counter has a row.
  abbrev pub IsFresh : Table R → Type ℓ
  IsFresh t = (id : ℕ) → t.last_id < id → find id t ≡ none

  pub find-insert :
      (id : ℕ) (r : R) (t : Table R)
      → find id (insert r t).0 ≡ (if suc t.last_id == id then some r else find id t)
  unfolding find insert
  find-insert id r t = refl

  pub find_in-update :
      (j id : ℕ) (f : R → R) (rows : List (ℕ × R))
      → find_in j (update_in id f rows)
        ≡ (if id == j then map_option f (find_in j rows) else find_in j rows)
  find_in-update j id f [] = ground arith
  find_in-update j id f ((i, r) ∷ rows) = ground (arith, find_in-update j id f rows)

  pub find-update :
      (j id : ℕ) (f : R → R) (t : Table R)
      → find j (update id f t) ≡ (if id == j then map_option f (find j t) else find j t)
  unfolding find update
  find-update j id f t = find_in-update j id f t.rows

  find_in-update_all :
      (j : ℕ) (f : R → R) (rows : List (ℕ × R))
      → find_in j (update_all_in f rows) ≡ map_option f (find_in j rows)
  find_in-update_all j f [] = refl
  find_in-update_all j f ((i, r) ∷ rows) = ground (arith, find_in-update_all j f rows)

  pub find-update_all :
      (j : ℕ) (f : R → R) (t : Table R) → find j (update_all f t) ≡ map_option f (find j t)
  unfolding find update_all
  find-update_all j f t = find_in-update_all j f t.rows

  pub find_in-delete :
      (j id : ℕ) (rows : List (ℕ × R))
      → find_in j (delete_in id rows) ≡ (if id == j then none else find_in j rows)
  find_in-delete j id [] = ground arith
  find_in-delete j id ((i, r) ∷ rows) = ground (arith, find_in-delete j id rows)

  pub find-delete :
      (j id : ℕ) (t : Table R) → find j (delete id t) ≡ (if id == j then none else find j t)
  unfolding find delete
  find-delete j id t = find_in-delete j id t.rows

  pub last_id-insert : (r : R) (t : Table R) → (insert r t).0.last_id ≡ suc t.last_id
  unfolding insert
  last_id-insert r t = refl

  pub id-insert : (r : R) (t : Table R) → (insert r t).1 ≡ suc t.last_id
  unfolding insert
  id-insert r t = refl

  pub last_id-update : (id : ℕ) (f : R → R) (t : Table R) → (update id f t).last_id ≡ t.last_id
  unfolding update
  last_id-update id f t = refl

  pub last_id-update_all : (f : R → R) (t : Table R) → (update_all f t).last_id ≡ t.last_id
  unfolding update_all
  last_id-update_all f t = refl
