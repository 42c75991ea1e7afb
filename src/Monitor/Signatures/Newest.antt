-- ===== src/Monitor/Signatures/Newest.antt =====
-- The age of the signatures, against the times of the databases and the threshold.
use clamav_webui.Prelude.{
  ℕ, String, ◌≡◌, ◌↔◌, ◌∙◌, sym, ◌+◌, ◌-◌, ◌*◌, ◌≤◌, ◌<◌, true, some, List, [], ◌∷◌, All, All-map,
  arith, ltb, Option-cases, inl, inr,
}
use clamav_webui.Prelude.Int.{pos}
use clamav_webui.Monitor.Freshness.{is_stale}
use clamav_webui.Monitor.Freshness.Overflow.{is_stale-eq-ltb}
use clamav_webui.Monitor.Signatures.{SignatureDb, add_db, totals, age_seconds}

-- If the database is there, its time is up to the bound.
abbrev pub IsWithin : ℕ → SignatureDb → Type 0
IsWithin bound db = (file : String) → db.file ≡ some file → db.mtime_unix ≤ bound

-- If the database is there, it is older than the days.
abbrev pub IsOld : ℕ → ℕ → SignatureDb → Type 0
IsOld days now db = (file : String) → db.file ≡ some file → db.mtime_unix + days * 86400 < now

add_db-newest :
    (bound : ℕ) (db : SignatureDb) (sums : ℕ × ℕ)
    → bound ≤ 9223372036
    → IsWithin bound db
    → sums.1 ≤ bound
    → (sums.1 ≤ (add_db db sums).1) × ((add_db db sums).1 ≤ bound) × IsWithin (add_db db sums).1 db
unfolding add_db
add_db-newest bound db (total, newest) far old fine = elim (Option-cases db.file) [
  | inl e ↦ (ground (arith, e), ground (arith, e), λ file f. ground (arith, e, f))
  | inr (g, e) ↦
      let in_bound = old g e in
      (
        ground (arith, e, in_bound),
        ground (arith, e, in_bound),
        λ file f. ground (arith, e, in_bound),
      )
]

-- Of times up to a bound, the newest stays up to it, and no database that is there is newer.
totals-newest :
    (bound : ℕ) (dbs : List SignatureDb) (sums : ℕ × ℕ)
    → bound ≤ 9223372036
    → All (IsWithin bound) dbs
    → sums.1 ≤ bound
    → (sums.1 ≤ (totals dbs sums).1)
      × ((totals dbs sums).1 ≤ bound)
      × All (IsWithin (totals dbs sums).1) dbs
unfolding totals
totals-newest bound [] sums far old fine = (omega arith, fine, tt)
totals-newest bound (db ∷ dbs) sums far (o, old) fine =
    let one = add_db-newest bound db sums far o fine in
    let others = totals-newest bound dbs (add_db db sums) far old one.1 in
    (
      omega (arith, one.0, others.0),
      others.1,
      ((λ file f. omega (arith, one.2 file f, others.0)), others.2),
    )

age_seconds-eq :
    (now newest : ℕ)
    → now ≤ 9223372036
    → 0 < newest
    → newest ≤ now
    → age_seconds now newest ≡ now - newest
unfolding age_seconds
age_seconds-eq now newest far some_time old = ground arith

-- Where a database is there with a time after 0, none is later than the clock, the clock is up to the
-- largest duration in seconds, and the threshold up to 106751 days: the signatures are stale
-- exactly if all databases that are there are older than the threshold.
pub is_stale-eq-true_iff :
    (days now : ℕ) (dbs : List SignatureDb)
    → now ≤ 9223372036
    → days ≤ 106751
    → All (IsWithin now) dbs
    → 0 < (totals dbs (0, 0)).1
    → (is_stale days (pos (age_seconds now (totals dbs (0, 0)).1)) ≡ true)
      ↔ All (IsOld days now) dbs
is_stale-eq-true_iff days now dbs far few old some_time =
    let newest = (totals dbs (0, 0)).1 in
    let known = totals-newest now dbs (0, 0) far old (omega arith) in
    let test : is_stale days (pos (age_seconds now newest)) ≡ ltb (days * 86400) (now - newest) =
      rw (age_seconds-eq now newest far some_time known.1)
        (is_stale-eq-ltb days (now - newest) few (omega arith)) in
    (
      (λ stale.
          let behind : newest + days * 86400 < now = ground (arith, sym test ∙ stale, known.1) in
          All-map (λ d within file f. omega (arith, within file f, behind)) dbs known.2),
      λ all_old.
          let bound =
            (totals-newest (now - days * 86400 - 1) dbs (0, 0) (omega arith)
              (All-map (λ d o file f. omega (arith, o file f)) dbs all_old) (omega arith)).1 in
          test ∙ ground (arith, bound, some_time),
    )
