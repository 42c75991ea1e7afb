-- ===== src/Clam/Scan/Verdicts.antt =====
-- The result of a scan whose scanner writes one line for each file.
use clamav_webui.Prelude.{
  inr, ap, ◌∙◌, ◌⊎◌, inl, ◌+◌, ◌≡◌, ◌||◌, ◌≢◌, refl, Text, List, [], ◌∷◌, ◌++◌, append_assoc,
  append-nil, arith, length, map, All,
}
use clamav_webui.Clam.Scan.{
  build_scan_cmd, true, pos, exited, some, ScanOptions, none, empty_result, Machine, stream_error,
  run_command, fill_infected, StreamError, scan, finish, fill_scanned, Option, ScanFinding,
  ScanResult, scan_lines, scan_line, parse_scan_line,
}
use clamav_webui.Clam.Scan.Lines.{
  found_line, ok_line, HasNoColon, IsRemark, parse_scan_line-IsRemark, parse_scan_line-found_line,
  parse_scan_line-ok_line,
}

-- What a scanner finds in a file of any path.
pub data Verdict : Type 0 where
  infected : Text → Text → Verdict
  clean : Text → Verdict

abbrev pub print : Verdict → Text
print (infected path sig) = found_line path sig
print (clean path) = ok_line path

-- A signature that can be told from the path
abbrev pub IsReadable : Verdict → Type 0
IsReadable (infected path sig) = (sig ≢ []) × HasNoColon sig
IsReadable (clean path) = Unit

abbrev pub infections : List Verdict → List ScanFinding
infections [] = []
infections (infected path sig ∷ vs) = record { path = path; signature = sig } ∷ infections vs
infections (clean path ∷ vs) = infections vs

abbrev after : List Verdict → ScanResult → ScanResult
after vs r = record r {
  findings = r.findings ++ infections vs;
  result_lines = r.result_lines + length vs;
}

scan_lines-after :
    (vs : List Verdict) (r : ScanResult)
    → All IsReadable vs
    → (scan_lines (map print vs) r).0 ≡ after vs r
unfolding scan_lines scan_line
scan_lines-after [] r h = ground (arith, append-nil r.findings)
scan_lines-after (clean path ∷ vs) r h =
    let r' = (parse_scan_line (ok_line path) r).0 in
    let here = parse_scan_line-ok_line path r in
    let rest = scan_lines-after vs r' h.1 in ground (arith, here, rest)
scan_lines-after (infected path [] ∷ vs) r h = absurd (h.0.0 refl)
scan_lines-after (infected path (c ∷ sig) ∷ vs) r h =
    let r' = (parse_scan_line (found_line path (c ∷ sig)) r).0 in
    let f : ScanFinding = record { path = path; signature = c ∷ sig } in
    let here = parse_scan_line-found_line path c sig r h.0.1 in
    let rest = scan_lines-after vs r' h.1 in
    ground (arith, here, rest, append_assoc r.findings (f ∷ []) (infections vs))

-- The ends that are no error: an exit with 0 or 1
abbrev pub IsDone : Option StreamError → Type 0
IsDone end = (end ≡ none) ⊎ (end ≡ some (exited (pos 1)))

scan_lines-append :
    (xs ys : List Text) (r : ScanResult)
    → (scan_lines (xs ++ ys) r).0 ≡ (scan_lines ys (scan_lines xs r).0).0
unfolding scan_lines
scan_lines-append [] ys r = refl
scan_lines-append (x ∷ xs) ys r = scan_lines-append xs ys (scan_line x r).0

scan_line-IsRemark :
    (raw : Text) (r : ScanResult)
    → IsRemark raw
    → ((scan_line raw r).0.findings ≡ r.findings)
      × ((scan_line raw r).0.result_lines ≡ r.result_lines)
unfolding scan_line
scan_line-IsRemark raw r h = parse_scan_line-IsRemark raw r h

scan_lines-IsRemark :
    (raws : List Text) (r : ScanResult)
    → All IsRemark raws
    → ((scan_lines raws r).0.findings ≡ r.findings)
      × ((scan_lines raws r).0.result_lines ≡ r.result_lines)
unfolding scan_lines
scan_lines-IsRemark [] r h = (refl, refl)
scan_lines-IsRemark (raw ∷ raws) r h =
    let one = scan_line-IsRemark raw r h.0 in
    let others = scan_lines-IsRemark raws (scan_line raw r).0 h.1 in
    (others.0 ∙ one.0, others.1 ∙ one.1)

-- The findings and the counted lines that a list of verdicts stands for
abbrev pub Shows : List Verdict → ScanResult → Type 0
Shows vs r = (r.findings ≡ infections vs) × (r.result_lines ≡ length vs)

finish-Shows :
    (end : Option StreamError) (r : ScanResult) (vs : List Verdict)
    → IsDone end
    → Shows vs r
    → Shows vs (finish end r).0 × ((finish end r).1 ≡ none)
unfolding finish stream_error fill_infected fill_scanned
finish-Shows end r vs (inl e) h = rw e (ground (arith, h.0, h.1))
finish-Shows end r vs (inr e) h = rw e (ground (arith, h.0, h.1))

-- Where a scanner is installed, writes one line for each file and then lines that are no verdicts, and
-- exits with 0 or 1, and no signature is empty or has a colon, the scan succeeds: its findings are
-- the infected files with their signatures, in order and whatever their paths, and it counts a
-- result for each file.
pub scan-verdicts :
    (m : Machine) (p : Text) (ps : List Text) (opts : ScanOptions) (vs : List Verdict)
    (remarks : List Text) (end : Option StreamError)
    → (m.has_clamscan || m.has_clamdscan) ≡ true
    → m.stream (build_scan_cmd m (p ∷ ps) opts).0 ≡ (map print vs ++ remarks, end)
    → All IsReadable vs
    → All IsRemark remarks
    → IsDone end
    → Shows vs (scan m (p ∷ ps) opts).0.0 × ((scan m (p ∷ ps) opts).0.1 ≡ none)
unfolding scan run_command
scan-verdicts m p ps opts vs remarks end installed output readable quiet done =
    let (cmd, used_daemon) = build_scan_cmd m (p ∷ ps) opts in
    let start = record empty_result { used_daemon = used_daemon } in
    let verdicts = scan_lines-after vs start readable in
    let all = scan_lines-append (map print vs) remarks start in
    let rest = scan_lines-IsRemark remarks (scan_lines (map print vs) start).0 quiet in
    let shown : Shows vs (scan_lines (map print vs ++ remarks) start).0 = (
      ap (λ (r : ScanResult). r.findings) all
          ∙ rest.0
          ∙ ap (λ (r : ScanResult). r.findings) verdicts,
      ap (λ (r : ScanResult). r.result_lines) all
          ∙ rest.1
          ∙ ap (λ (r : ScanResult). r.result_lines) verdicts
          ∙ omega arith,
    ) in
    rw installed
      (rw output (finish-Shows end (scan_lines (map print vs ++ remarks) start).0 vs done shown))
