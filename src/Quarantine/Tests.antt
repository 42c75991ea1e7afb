-- ===== src/Quarantine/Tests.antt =====
-- Runs of the quarantine.
use Prim.Native.String
use clamav_webui.Prelude.{
  ◌==◌, string_eq, String, ◌≡◌, ◌≢◌, ◌⊎◌, refl, true, false, not, none, some, [], ◌∷◌, arith,
  eq_iff,
}
use clamav_webui.Db.Table
use clamav_webui.Db.Table.{Table}
use clamav_webui.Db.Quarantine.{QuarantineItem, held, restored, get_quarantine}
use clamav_webui.Quarantine.Files.{
  Host, lstat, move_file, move_file_outcome, is_gone, is_moved, is_left, rename, write_file,
}
use clamav_webui.Quarantine.Store.{examine, store_as, Facts, hold, sidecar_path}
use clamav_webui.Quarantine.Store.Safety.{hold_outcome, sidecar_of, write_failed, was_free}
use clamav_webui.Quarantine.Items.{
  Env, Shelf, ok, handle_restore_quarantine, handle_delete_quarantine,
}
use clamav_webui.Quarantine.Items.Status.{here, next, deletes, Follows, item_only_moves_on}
use clamav_webui.Quarantine.Items.Outcomes.{handle_restore_quarantine_outcome}

-- A system that finds nothing at "/home/x", and on which all else succeeds.
abbrev calm : Host
calm t (lstat path) = not (path == "/home/x")
calm t c = true

-- A system on which no rename and no write of a file succeeds.
abbrev stubborn : Host
stubborn t (rename src dst) = false
stubborn t (write_file path) = false
stubborn t c = true

abbrev in_store : String → String
in_store name = String.◌++◌ "/q/" name

abbrev facts : Facts
facts = record { mode = 420; sha256 = "00"; size = 3; now = "t" }

x_not_stored : "/home/x" ≢ in_store "n"
x_not_stored e = ground (arith, eq_iff "/home/x" (in_store "n"))

stored_not_x : in_store "n" ≢ "/home/x"
stored_not_x e = ground (arith, eq_iff (in_store "n") "/home/x")

move_file_outcome_example :
    let (moved, u) = move_file stubborn "/home/x" "/q/n" [] in
    ((moved ≡ true) → is_gone "/home/x" u ≡ true)
    × ((moved ≡ false) → (is_gone "/home/x" u ≡ false) × (is_left "/q/n" u ≡ false))
move_file_outcome_example = move_file_outcome stubborn "/home/x" "/q/n" [] x_not_stored refl

-- The file is gone although `Hold` failed.
unrecorded_file :
    let (result, u) = hold stubborn in_store (some "/home/x") "Eicar" 1 facts (some "n") [] in
    (result ≡ none) × (is_gone "/home/x" u ≡ true)
unfolding hold move_file examine store_as
unrecorded_file = (refl, refl)

hold_outcome_example :
    let (result, u) = hold stubborn in_store (some "/home/x") "Eicar" 1 facts (some "n") [] in
    ((result ≡ some (sidecar_of "/home/x" "Eicar" 1 facts "n")) × (is_gone "/home/x" u ≡ true))
    ⊎ ((result ≡ none) × (is_gone "/home/x" u ≡ false))
    ⊎ ((result ≡ none)
        × (is_gone "/home/x" u ≡ true)
        × (write_failed (sidecar_path in_store "n") u ≡ true))
hold_outcome_example = hold_outcome stubborn in_store "/home/x" "Eicar" 1 facts "n" x_not_stored

abbrev env : Env
env = record {
  host = calm;
  join = in_store;
  parent_of = λ p. "/home";
  is_abs = λ p. true;
  abs = λ p. some p;
  clean = λ p. p;
  rel = λ root p. some p;
  read_sidecar = λ name. none;
  config_dir = "/etc/app";
  browse_root = "/";
}

abbrev item : QuarantineItem
item = record {
  store_name = "n";
  orig_path = "/home/x";
  signature = "Eicar";
  sha256 = "00";
  scan_id = some 1;
  status = held;
  orig_mode = 420;
}

abbrev shelf : Shelf
shelf = record {
  items = record { rows = (1, item) ∷ []; last_id = 1 };
  findings = Table.empty;
  published = [];
}

handle_restore_quarantine_outcome_example :
    let (u, reply, t) = handle_restore_quarantine env true 1 shelf in
    ((reply ≡ ok 1)
      × (get_quarantine 1 u.items ≡ some (record item { status = restored }))
      × (is_gone "/q/n" t ≡ true)
      × (is_moved "/q/n" "/home/x" t ≡ true)
      × (was_free "/home/x" t ≡ true))
    ⊎ ((u ≡ shelf) × (is_gone "/q/n" t ≡ false))
unfolding get_quarantine Table.find
handle_restore_quarantine_outcome_example =
    handle_restore_quarantine_outcome env true 1 item shelf refl refl stored_not_x

item_only_moves_on_example : Follows 1 item (handle_delete_quarantine env false true 1 shelf).0
unfolding Table.find
item_only_moves_on_example =
    item_only_moves_on 1 item shelf (handle_delete_quarantine env false true 1 shelf).0 refl
      (omega arith) (next here (deletes env false true 1))
