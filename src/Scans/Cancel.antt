-- ===== src/Scans/Cancel.antt =====
-- A scan that is canceled before a worker has it.
use clamav_webui.Prelude.{ℕ, String, ◌≡◌, refl, Bool, true, false, some, arith, if◌then◌else◌, ◌∙◌}
use clamav_webui.Db.Table.{find-update}
use clamav_webui.Db.Scans
use clamav_webui.Db.Scans.{Scan, start_scan, finish_scan, get_scan}
use clamav_webui.Scans.{Server, ScanTask, begin_scan, handle_cancel_scan, accepted}

abbrev pub canceled_row : Scan → Scan
canceled_row scan = record scan {
  status = Scans.canceled;
  scanned = 0;
  infected = 0;
  error_text = "canceled before start";
}

cancel_queued_row :
    (marked looked_up : Bool) (scan : Scan) (id : ℕ) (s : Server)
    → get_scan id s.scans ≡ some scan
    → scan.status ≡ Scans.queued
    → (get_scan id (handle_cancel_scan marked looked_up id s).0.scans
        ≡ some (if marked then canceled_row scan else scan))
      × ((handle_cancel_scan marked looked_up id s).1 ≡ accepted id)
unfolding handle_cancel_scan finish_scan get_scan
cancel_queued_row marked looked_up scan id s e q =
    (ground (arith, find-update id id canceled_row s.scans, e, q), ground (arith, e, q))

-- The start of the scan's task, over the row that the cancel left
abbrev pub Bails : Bool → String → String → ScanTask → Server → Type 0
Bails true engine version task u = begin_scan engine version task u ≡ (u, false)
Bails false engine version task u =
    begin_scan engine version task u
    ≡ (record u { scans = start_scan task.scan_id engine version u.scans }, true)

begin-Bails :
    (marked : Bool) (engine version : String) (scan : Scan) (task : ScanTask) (u : Server)
    → scan.status ≡ Scans.queued
    → get_scan task.scan_id u.scans ≡ some (if marked then canceled_row scan else scan)
    → Bails marked engine version task u
unfolding begin_scan
begin-Bails true engine version scan task u q e = rw e refl
begin-Bails false engine version scan task u q e = rw e (rw q refl)

-- A cancel of a queued scan is accepted, also where the write of the row fails, which the program does
-- not look at. If it is stored, the row is canceled, and whenever a worker starts the scan's task
-- over this row, whatever else changed in between, it changes nothing and the scan does not run; if
-- it is not, the row is still queued, and then the scan is marked running and runs.
pub canceled_in_queue :
    (marked looked_up : Bool) (engine version : String) (scan : Scan) (task : ScanTask)
    (s u : Server)
    → get_scan task.scan_id s.scans ≡ some scan
    → scan.status ≡ Scans.queued
    → get_scan task.scan_id u.scans
      ≡ get_scan task.scan_id (handle_cancel_scan marked looked_up task.scan_id s).0.scans
    → ((handle_cancel_scan marked looked_up task.scan_id s).1 ≡ accepted task.scan_id)
      × (get_scan task.scan_id u.scans ≡ some (if marked then canceled_row scan else scan))
      × Bails marked engine version task u
canceled_in_queue marked looked_up engine version scan task s u e q same =
    let (row, accepts) = cancel_queued_row marked looked_up scan task.scan_id s e q in
    (accepts, same ∙ row, begin-Bails marked engine version scan task u q (same ∙ row))
