-- ===== src/Clam/Scan/Tests.antt =====
-- Runs of a scan.
use clamav_webui.Prelude.{◌≡◌, refl, true, false, none, some, List, [], ◌∷◌, map}
use clamav_webui.Prelude.Int.{pos, negsuc}
use clamav_webui.Prelude.Bytes.{
  codes, cut_prefix, cut_suffix, put_head, trim_right, trim_left, take_while, is_space, is_digit,
  atoi, digits_onto, itoa,
}
use clamav_webui.Clam.Options.{ScanOptions}
use clamav_webui.Clam.Scan.{
  Machine, scan_lines, scan_line, parse_scan_line, match_found, match_ok, match_count, match_engine,
  split_last, build_scan_cmd, empty_result, exited,
}
use clamav_webui.Clam.Scan.Verdicts.{Verdict, infected, clean, print}

abbrev options : ScanOptions
options = record {
  recursive = true;
  follow_symlinks = false;
  max_file_size_mb = pos 25;
  max_scan_size_mb = negsuc 0;
  force_clamscan = false;
}

-- A path that looks like a result itself
abbrev verdicts : List Verdict
verdicts =
    clean (codes "/home/a")
    ∷ infected (codes "/home/b: OK") (codes "Eicar-Test")
    ∷ clean (codes "/home/c FOUND")
    ∷ []

abbrev machine : Machine
machine = record {
  has_clamscan = true;
  has_clamdscan = true;
  daemon = none;
  stream = λ c. (map print verdicts, some (exited (pos 1)));
}

limits :
    (build_scan_cmd machine (codes "/home" ∷ []) options).0.args
    ≡ codes "--stdout" ∷ codes "--recursive" ∷ codes "--max-filesize=25M" ∷ codes "/home" ∷ []
unfolding build_scan_cmd itoa digits_onto
limits = refl

summary :
    (scan_lines
      (codes "Engine version: 1.4.2 " ∷ codes "Scanned files: 31" ∷ codes "Infected files:  2" ∷ [])
      empty_result).0
    ≡ record empty_result { engine_version = codes "1.4.2"; scanned = 31; infected = 2 }
unfolding scan_lines scan_line parse_scan_line match_found match_ok match_count match_engine
    split_last cut_prefix cut_suffix put_head trim_right trim_left take_while is_space is_digit atoi
summary = refl
