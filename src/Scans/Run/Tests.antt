-- ===== src/Scans/Run/Tests.antt =====
-- A scan of one image, of which a file is infected.
use Prim.Native.String
use clamav_webui.Prelude.{◌^◌, ◌≡◌, refl, true, false, none, some, [], ◌∷◌, ◌++◌, map, string_eq}
use clamav_webui.Prelude.Int.{pos}
use clamav_webui.Prelude.Bytes.{codes, replace_all, cut_prefix}
use clamav_webui.Db.Table
use clamav_webui.Db.Scans
use clamav_webui.Db.Scans.{Scan, get_scan, scan_findings}
use clamav_webui.Clam.Scan.{Machine, exited}
use clamav_webui.Clam.Scan.Verdicts.{infected, print}
use clamav_webui.Clam.Mount.Cleanup.{is_mounted}
use clamav_webui.Worker
use clamav_webui.Scans.{ScanTask}
use clamav_webui.Scans.Run.{Surroundings, Run, relabel_path, prepared, scan_output, run_scan}
use clamav_webui.Scans.Run.Rows.{row_for, final_row, alerts_for, run_scan_records}
use clamav_webui.Scans.Run.Mounts.{run_scan-unmounts}

abbrev machine : Machine
machine = record {
  has_clamscan = true;
  has_clamdscan = false;
  daemon = none;
  stream = λ c. (print (infected (codes "/m/0/a") (codes "Eicar")) ∷ [], some (exited (pos 1)));
}

abbrev surroundings : Surroundings
surroundings = record {
  bytes = codes;
  name = λ s. "a.iso";
  texts = record {
    lower = λ s. s;
    trim = λ s. s;
    has_prefix = λ s p. true;
    has_suffix = λ s p. true;
    numbered = λ base n. String.◌++◌ base "/0";
  };
  mount_config = record { enabled = true; extensions = ".iso" ∷ []; extract_dir = "" };
  mount_base = "/m";
  extract_base = "/x";
  system = λ t c. true;
  machine = machine;
  engine = "1.4";
  version = "27000";
  moments = λ i. record { now = 10 ^ 19; stored = true };
  error_text = λ e. "failed";
  interrupted = false;
}

abbrev task : ScanTask
task = record {
  scan_id = 1;
  source = "manual";
  paths = codes "/a.iso" ∷ [];
  options = record {
    recursive = false;
    follow_symlinks = false;
    max_file_size_mb = pos 0;
    max_scan_size_mb = pos 0;
    force_clamscan = false;
  };
}

abbrev waiting : Scan
waiting = record {
  source = "manual";
  status = Scans.queued;
  paths = task.paths;
  engine = "";
  db_version = "";
  scanned = 0;
  infected = 0;
  error_text = "";
}

abbrev before : Run
before = record {
  server = record {
    scans = record { rows = (1, waiting) ∷ []; last_id = 1 };
    schedules = Table.empty;
    manager = Worker.new true Table.empty;
    executing = task ∷ [];
  };
  findings = Table.empty;
  log = [];
  published = [];
  last_flush = 0;
}

waiting_found : get_scan 1 before.server.scans ≡ some waiting
unfolding get_scan Table.find
waiting_found = refl

relabeled :
    relabel_path codes
      (record { image = "a.iso"; dir = "/m/0"; extracted = false } ∷ [])
      (codes "/m/0/a")
    ≡ codes "a.iso!/a"
unfolding relabel_path replace_all cut_prefix
relabeled = refl

run_scan_records_example :
    let (res, err) = (scan_output surroundings task).0 in
    let label = relabel_path codes (prepared surroundings task).images in
    let out = run_scan surroundings task before in
    (scan_findings 1 out.0.findings
      ≡ scan_findings 1 before.findings ++ map (row_for 1 label) res.findings)
    × (get_scan 1 out.0.server.scans ≡ some (final_row surroundings task waiting))
    × (out.1 ≡ alerts_for false err res)
run_scan_records_example =
    run_scan_records surroundings task before waiting waiting_found (λ e. cc e) (λ i. refl)

run_scan-unmounts_example : is_mounted "/m/0" (run_scan surroundings task before).2 ≡ false
run_scan-unmounts_example = run_scan-unmounts surroundings task before "/m/0"
