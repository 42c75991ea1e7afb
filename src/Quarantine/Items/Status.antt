-- ===== src/Quarantine/Items/Status.antt =====
-- What becomes of an item of the quarantine over any sequence of requests.
use clamav_webui.Prelude.{
  [], ℕ, String, ◌≡◌, ◌≤◌, refl, ◌⊎◌, inl, inr, Bool, true, false, Option, none, some, nat_eq,
  arith, Bool-cases,
}
use clamav_webui.Db.Table
use clamav_webui.Db.Table.{Table, find-update, find-insert, last_id-insert, last_id-update}
use clamav_webui.Db.Quarantine.{
  QuarantineItem, ItemStatus, held, restored, deleted, set_quarantine_status, add_quarantine,
  get_quarantine,
}
use clamav_webui.Quarantine.Store.{Facts}
use clamav_webui.Quarantine.Items.{
  reference, Trace, check_target_path, Sidecar, record_held, hold, after_hold, Env, Shelf,
  QuarantineRequest, handle_quarantine_file, handle_restore_quarantine, handle_delete_quarantine,
  is_held,
}

-- The requests, each with whatever the system answers to it.
pub data Step (s : Shelf) : Shelf → Type 0 where
  quarantines :
      (env : Env) (inserted : Bool) (facts : Facts) (drawn : Option String)
      (req : QuarantineRequest)
      → Step s (handle_quarantine_file env inserted facts drawn req s).0
  restores :
      (env : Env) (updated : Bool) (id : ℕ) → Step s (handle_restore_quarantine env updated id s).0
  deletes :
      (env : Env) (is_absent updated : Bool) (id : ℕ)
      → Step s (handle_delete_quarantine env is_absent updated id s).0

pub data Reach (s : Shelf) : Shelf → Type 0 where
  here : Reach s s
  next : {t u : Shelf} → Reach s t → Step t u → Reach s u

-- held, then restored, then deleted, where steps may be left out
abbrev pub may_become : ItemStatus → ItemStatus → Bool
may_become held after = true
may_become restored held = false
may_become restored after = true
may_become deleted deleted = true
may_become deleted after = false

may_become_trans :
    (a b c : ItemStatus) → may_become a b ≡ true → may_become b c ≡ true → may_become a c ≡ true
may_become_trans a b c h k = ground arith

may_become_refl : (a : ItemStatus) → may_become a a ≡ true
may_become_refl held = refl
may_become_refl restored = refl
may_become_refl deleted = refl

-- Row `id` is the item `i` with a status that may follow on its own.
pub record Follows (id : ℕ) (i : QuarantineItem) (s : Shelf) : Type 0 where
  pub status : ItemStatus
  pub row : Table.find id s.items ≡ some (record i { status = status })
  pub allowed : may_become i.status status ≡ true
  pub known : id ≤ s.items.last_id

module _ (id : ℕ) where
  record_held_keeps :
      (env : Env) (inserted : Bool) (req : QuarantineRequest) (sc : Sidecar) (s : Shelf) (t : Trace)
      → id ≤ s.items.last_id
      → let u = (record_held env inserted req sc s t).0 in
        (Table.find id u.items ≡ Table.find id s.items) × (id ≤ u.items.last_id)
  unfolding record_held add_quarantine
  record_held_keeps env false req sc s t h = (refl, h)
  record_held_keeps env true req sc s t h =
      let row : QuarantineItem = record {
        store_name = sc.name;
        orig_path = sc.orig_path;
        signature = sc.signature;
        sha256 = sc.sha256;
        scan_id = reference req.scan_id;
        status = held;
        orig_mode = sc.orig_mode;
      } in
      (ground (arith, find-insert id row s.items, h), omega (arith, last_id-insert row s.items, h))

  after_hold_keeps :
      (env : Env) (inserted : Bool) (req : QuarantineRequest) (s : Shelf)
      (result : Option Sidecar × Trace)
      → id ≤ s.items.last_id
      → let u = (after_hold env inserted req s result).0 in
        (Table.find id u.items ≡ Table.find id s.items) × (id ≤ u.items.last_id)
  unfolding after_hold
  after_hold_keeps env inserted req s (none, t) h = (refl, h)
  after_hold_keeps env inserted req s (some sc, t) h = record_held_keeps env inserted req sc s t h

  quarantine_keeps :
      (env : Env) (inserted : Bool) (facts : Facts) (drawn : Option String)
      (req : QuarantineRequest) (s : Shelf)
      → id ≤ s.items.last_id
      → let u = (handle_quarantine_file env inserted facts drawn req s).0 in
        (Table.find id u.items ≡ Table.find id s.items) × (id ≤ u.items.last_id)
  unfolding handle_quarantine_file
  quarantine_keeps env inserted facts drawn req s h =
      let kept =
        after_hold_keeps env inserted req s
          (hold env.host env.join (env.abs req.path) req.signature req.scan_id facts drawn []) h in
      elim (Bool-cases (check_target_path env req.path)) [
        | inl e ↦ rw e kept
        | inr e ↦ rw e (refl, h)
      ]

  restore_keeps_id :
      (env : Env) (updated : Bool) (j : ℕ) (s : Shelf)
      → (handle_restore_quarantine env updated j s).0.items.last_id ≡ s.items.last_id
  unfolding handle_restore_quarantine set_quarantine_status Table.update
  restore_keeps_id env updated j s = ground arith

  delete_keeps_id :
      (env : Env) (is_absent updated : Bool) (j : ℕ) (s : Shelf)
      → (handle_delete_quarantine env is_absent updated j s).0.items.last_id ≡ s.items.last_id
  unfolding handle_delete_quarantine set_quarantine_status Table.update
  delete_keeps_id env is_absent updated j s = ground arith

  restore_changes :
      (env : Env) (updated : Bool) (j : ℕ) (i : QuarantineItem) (s : Shelf)
      → Table.find id s.items ≡ some i
      → let u = (handle_restore_quarantine env updated j s).0 in
        ((Table.find id u.items ≡ some i)
          ⊎ ((Table.find id u.items ≡ some (record i { status = restored }))
              × (is_held i.status ≡ true)))
  unfolding handle_restore_quarantine set_quarantine_status get_quarantine
  restore_changes env updated j i s e =
      ground
        (arith, find-update id j (λ (r : QuarantineItem). record r { status = restored }) s.items)

  delete_changes :
      (env : Env) (is_absent updated : Bool) (j : ℕ) (i : QuarantineItem) (s : Shelf)
      → Table.find id s.items ≡ some i
      → let u = (handle_delete_quarantine env is_absent updated j s).0 in
        (Table.find id u.items ≡ some i)
        ⊎ (Table.find id u.items ≡ some (record i { status = deleted }))
  unfolding handle_delete_quarantine set_quarantine_status get_quarantine
  delete_changes env is_absent updated j i s e =
      ground
        (arith, find-update id j (λ (r : QuarantineItem). record r { status = deleted }) s.items)

module _ (id : ℕ) (i : QuarantineItem) where
  Step-Follows : {s u : Shelf} → Step s u → Follows id i s → Follows id i u
  Step-Follows {s} (quarantines env inserted facts drawn req) f =
      let (same, known) = quarantine_keeps id env inserted facts drawn req s f.known in
      record { status = f.status; row = rw same f.row; allowed = f.allowed; known = known }
  Step-Follows {s} (restores env updated j) f =
      let known : id ≤ (handle_restore_quarantine env updated j s).0.items.last_id =
        rw (restore_keeps_id id env updated j s) f.known in
      elim (restore_changes id env updated j (record i { status = f.status }) s f.row) [
        | inl same ↦ record { status = f.status; row = same; allowed = f.allowed; known = known }
        | inr (changed, was_held) ↦ record {
          status = restored;
          row = changed;
          allowed = ground (arith, f.allowed, was_held);
          known = known;
        }
      ]
  Step-Follows {s} (deletes env is_absent updated j) f =
      let known : id ≤ (handle_delete_quarantine env is_absent updated j s).0.items.last_id =
        rw (delete_keeps_id id env is_absent updated j s) f.known in
      elim (delete_changes id env is_absent updated j (record i { status = f.status }) s f.row) [
        | inl same ↦ record { status = f.status; row = same; allowed = f.allowed; known = known }
        | inr changed ↦ record {
          status = deleted;
          row = changed;
          allowed = ground (arith, f.allowed);
          known = known;
        }
      ]

  -- Whatever requests follow, and whatever the system answers to them: the row of an item stays and
  -- changes in nothing but its status, which goes from held to restored to deleted and never back.
  pub item_only_moves_on :
      (s u : Shelf)
      → Table.find id s.items ≡ some i
      → id ≤ s.items.last_id
      → Reach s u
      → Follows id i u
  item_only_moves_on s u e h here = record {
    status = i.status;
    row = e;
    allowed = may_become_refl i.status;
    known = h;
  }
  item_only_moves_on s u e h (next {t} r step) = Step-Follows step (item_only_moves_on s t e h r)
