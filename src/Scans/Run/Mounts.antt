-- ===== src/Scans/Run/Mounts.antt =====
-- No image stays mounted behind a run of a scan.
use clamav_webui.Prelude.{String, ◌≡◌, refl, false, Bool-cases, inl, inr, map}
use clamav_webui.Clam.Mount.Cleanup.{is_mounted, cleanup_unmounts}
use clamav_webui.Scans.{ScanTask, begin_scan}
use clamav_webui.Scans.Run.{Surroundings, Run, run_scan, run_begun}

-- However a run of a scan ends, with an error, interrupted, or skipped since the scan was canceled, and whatever the
-- system answers: each directory on which it mounted an image has had an attempt to unmount it
-- since.
pub run_scan-unmounts :
    (env : Surroundings) (task : ScanTask) (r : Run) (dir : String)
    → is_mounted dir (run_scan env task r).2 ≡ false
unfolding run_scan run_begun
run_scan-unmounts env task r dir =
    elim (Bool-cases (begin_scan env.engine env.version task r.server).1) [
      | inl goes_on ↦ rw goes_on (
          cleanup_unmounts env.system dir env.texts env.mount_config env.mount_base env.extract_base
            (map env.name task.paths))
      | inr skipped ↦ rw skipped refl
    ]
