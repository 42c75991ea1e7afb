-- ===== src/Db/Table/Keyed.antt =====
-- The ids of a table stay distinct and within its counter.
use clamav_webui.Prelude.{ℕ, suc, List, [], ◌∷◌, arith, nat_eq}
use clamav_webui.Db.Table
use clamav_webui.Db.Table.{
  Table, IsKeyed, IsFresh, find_in, update_in, delete_in, find_in-update, find_in-delete,
  find-insert, find-update, find-delete, last_id-insert, map_option,
}

-- Each id has at most one row, and none is above the counter.
pub record IsSound {ℓ} {R : Type ℓ} (t : Table R) : Type ℓ where
  pub keyed : IsKeyed t.rows
  pub fresh : IsFresh t

module _ {ℓ} {R : Type ℓ} where
  update_in-IsKeyed :
      (id : ℕ) (f : R → R) (rows : List (ℕ × R)) → IsKeyed rows → IsKeyed (update_in id f rows)
  update_in-IsKeyed id f [] h = tt
  update_in-IsKeyed id f ((i, r) ∷ rows) h =
      (ground (arith, find_in-update i id f rows, h.0), update_in-IsKeyed id f rows h.1)

  delete_in-IsKeyed : (id : ℕ) (rows : List (ℕ × R)) → IsKeyed rows → IsKeyed (delete_in id rows)
  delete_in-IsKeyed id [] h = tt
  delete_in-IsKeyed id ((i, r) ∷ rows) h =
      ground (arith, find_in-delete i id rows, h.0, delete_in-IsKeyed id rows h.1)

  pub insert-IsSound : (r : R) (t : Table R) → IsSound t → IsSound (Table.insert r t).0
  unfolding Table.insert Table.find
  insert-IsSound r t h = record {
    keyed = (h.fresh (suc t.last_id) (omega arith), h.keyed);
    fresh = λ id above. ground (arith, h.fresh id, above);
  }

  pub update-IsSound :
      (id : ℕ) (f : R → R) (t : Table R) → IsSound t → IsSound (Table.update id f t)
  unfolding Table.update Table.find
  update-IsSound id f t h = record {
    keyed = update_in-IsKeyed id f t.rows h.keyed;
    fresh = λ j above. ground (arith, find_in-update j id f t.rows, h.fresh j above);
  }

  pub delete-IsSound : (id : ℕ) (t : Table R) → IsSound t → IsSound (Table.delete id t)
  unfolding Table.delete Table.find
  delete-IsSound id t h = record {
    keyed = delete_in-IsKeyed id t.rows h.keyed;
    fresh = λ j above. ground (arith, find_in-delete j id t.rows, h.fresh j above);
  }
