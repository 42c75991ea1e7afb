-- ===== src/Quarantine/Items/Outcomes.antt =====
-- What the replies of the quarantine's handlers mean for the files and the rows.
use clamav_webui.Prelude.{
  ℕ, ◌≡◌, ◌≢◌, ◌⊎◌, Bool, true, false, some, [], nat_eq, if◌then◌else◌, arith,
}
use clamav_webui.Db.Table.{find-update}
use clamav_webui.Db.Quarantine.{
  QuarantineItem, held, restored, set_quarantine_status, get_quarantine,
}
use clamav_webui.Quarantine.Files.{Trace, is_gone, is_moved}
use clamav_webui.Quarantine.Store.{RestoreResult, restore}
use clamav_webui.Quarantine.Store.Safety.{restore_outcome, is_put_back, was_free}
use clamav_webui.Quarantine.Items.{
  Env, Shelf, ok, handle_restore_quarantine, after_restore, sidecar_from_item,
}

after_restore_outcome :
    (updated : Bool) (id : ℕ) (item : QuarantineItem) (s : Shelf) (result : RestoreResult)
    (t : Trace)
    → get_quarantine id s.items ≡ some item
    → let (u, reply, v) = after_restore updated id s (result, t) in
      (v ≡ t)
      × (((is_put_back result ≡ true)
            × (reply ≡ ok id)
            × (get_quarantine id u.items
                ≡ some (if updated then record item { status = restored } else item)))
          ⊎ ((is_put_back result ≡ false) × (u ≡ s)))
unfolding after_restore set_quarantine_status get_quarantine
after_restore_outcome updated id item s result t e = (
  ground arith,
  ground
      (arith, find-update id id (λ (r : QuarantineItem). record r { status = restored }) s.items),
)

restore_held :
    (env : Env) (updated : Bool) (id : ℕ) (item : QuarantineItem) (s : Shelf)
    → get_quarantine id s.items ≡ some item
    → item.status ≡ held
    → handle_restore_quarantine env updated id s
      ≡ after_restore updated id s
          (restore env.host env.join env.parent_of (sidecar_from_item env item) [])
unfolding handle_restore_quarantine
restore_held env updated id item s e h = ground (arith, e, h)

-- A request to restore an item that is held ends in one of two ways, whatever the system answers:
-- it is accepted, the blob was moved to its original path, which was found free, and the row is
-- restored if the update is stored; or the rows and events are as before, and the blob is
-- still in the store.
pub handle_restore_quarantine_outcome :
    (env : Env) (updated : Bool) (id : ℕ) (item : QuarantineItem) (s : Shelf)
    → get_quarantine id s.items ≡ some item
    → item.status ≡ held
    → let sc = sidecar_from_item env item in
      env.join sc.name ≢ sc.orig_path
      → let (u, reply, t) = handle_restore_quarantine env updated id s in
        ((reply ≡ ok id)
          × (get_quarantine id u.items
              ≡ some (if updated then record item { status = restored } else item))
          × (is_gone (env.join sc.name) t ≡ true)
          × (is_moved (env.join sc.name) sc.orig_path t ≡ true)
          × (was_free sc.orig_path t ≡ true))
        ⊎ ((u ≡ s) × (is_gone (env.join sc.name) t ≡ false))
handle_restore_quarantine_outcome env updated id item s e h n =
    let sc = sidecar_from_item env item in
    let (result, t) = restore env.host env.join env.parent_of sc [] in
    let (same, after) = after_restore_outcome updated id item s result t e in
    rw (restore_held env updated id item s e h)
      (ground (arith, same, after, restore_outcome env.host env.join env.parent_of sc n))
