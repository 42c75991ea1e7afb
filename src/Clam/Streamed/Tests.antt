-- ===== src/Clam/Streamed/Tests.antt =====
-- A scan whose scanner writes its lines in pieces.
use clamav_webui.Prelude.{
  ◌≤◌, length, ◌≡◌, refl, true, none, some, List, [], ◌∷◌, ◌++◌, All, map, inr, Text, take,
}
use clamav_webui.Prelude.Int.{pos}
use clamav_webui.Prelude.Bytes.{codes, trim_right, cut_suffix, cut_prefix}
use clamav_webui.Clam.Options.{ScanOptions}
use clamav_webui.Clam.Scan.{Machine, scan, match_found, match_ok, split_last}
use clamav_webui.Clam.Scan.Verdicts.{Verdict, infected, clean, print, Shows}
use clamav_webui.Clam.Exec.{joined, exit, Process, run, max_captured_output}
use clamav_webui.Clam.Exec.Output.{unlines, run_output}
use clamav_webui.Clam.Streamed.{arith, Processes, run_by, scan-run_by, IsRemarkLine}

abbrev options : ScanOptions
options = record {
  recursive = true;
  follow_symlinks = true;
  max_file_size_mb = pos 0;
  max_scan_size_mb = pos 0;
  force_clamscan = true;
}

abbrev machine : Machine
machine = record {
  has_clamscan = true;
  has_clamdscan = true;
  daemon = some (codes "active");
  stream = λ c. ([], none);
}

abbrev verdicts : List Verdict
verdicts = infected (codes "/a: b") (codes "Eicar") ∷ clean (codes "/c") ∷ []

-- The summary behind the verdicts
abbrev summary : List Text
summary =
    []
    ∷ codes "----------- SCAN SUMMARY -----------"
    ∷ codes "Engine version: 1.0.3"
    ∷ codes "Scanned files: 2"
    ∷ codes "Infected files: 1"
    ∷ []

abbrev pieces : List Text
pieces =
    codes "/a: b: Eic" ∷ codes "ar FOUND" ∷ (10 ∷ codes "/c: OK") ∷ (10 ∷ []) ∷ unlines summary ∷ []

abbrev processes : Processes
processes c = (pieces, exit (pos 1))

pieces-joined : joined pieces ≡ unlines (map print verdicts ++ summary)
unfolding joined
pieces-joined = refl

summary-IsRemarkLine : All IsRemarkLine summary
unfolding match_found match_ok trim_right split_last cut_suffix cut_prefix
summary-IsRemarkLine = (
  ((refl, refl), (refl, refl)),
  (
    ((refl, refl), (refl, refl)),
    (
      ((refl, refl), (refl, refl)),
      (((refl, refl), (refl, refl)), (((refl, refl), (refl, refl)), tt)),
    ),
  ),
)

scan-run_by_example :
    Shows verdicts (scan (run_by processes machine) (codes "/" ∷ []) options).0.0
    × ((scan (run_by processes machine) (codes "/" ∷ []) options).0.1 ≡ none)
scan-run_by_example =
    scan-run_by processes machine (codes "/") [] options verdicts summary pieces 1 refl refl
      pieces-joined ((((ground arith, ground arith), refl, refl), (refl, tt))) summary-IsRemarkLine
      (inr refl)

abbrev talkative : Process
talkative = record { stdout = pieces; stderr = []; end = exit (pos 1) }

run_output_example :
    let r = (run talkative).0 in
    (r.stdout ≡ take max_captured_output (joined pieces))
    × (r.stderr ≡ take max_captured_output (joined []))
    × (length r.stdout ≤ max_captured_output)
    × (length r.stderr ≤ max_captured_output)
run_output_example = run_output talkative
