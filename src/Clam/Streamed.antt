-- ===== src/Clam/Streamed.antt =====
-- A scan over the runner: `Scan` of internal/clamav/scan.go on the lines that `Stream` of
-- internal/clamav/exec.go makes of the scanner's writes.
mod Tests
use clamav_webui.Prelude.{
  ℕ, ◌≡◌, ◌||◌, ◌⊎◌, refl, sym, ap, ◌∙◌, Text, Bool, true, false, Option, none, some, List, [], ◌∷◌,
  ◌++◌, arith, map, All, All-map, All-append, contains, text_eq, nat_eq, nat_beq, inl, inr,
  if◌then◌else◌,
}
use clamav_webui.Prelude.Int.{ℤ, pos}
use clamav_webui.Prelude.Bytes.{codes, trim_right}
use clamav_webui.Prelude.Bytes.Laws.{trim_right-append, contains-append}
use clamav_webui.Clam.Options.{ScanOptions}
use clamav_webui.Clam.Scan.{
  Machine, Cmd, scan, build_scan_cmd, StreamError, exited, separator, found_end,
}
use clamav_webui.Clam.Scan.Lines.{found_line, ok_line, IsRemark}
use clamav_webui.Clam.Scan.Verdicts.{
  Verdict, infected, clean, print, IsReadable, IsDone, Shows, scan-verdicts,
}
use clamav_webui.Clam.Exec.{stream, joined, ProcessEnd, exit, is_line_end, end_error}
use clamav_webui.Clam.Exec.Output.{unlines, IsLine, IsGood, exit-IsDone, stream-unlines}

-- The writes and the end of a command's process
abbrev pub Processes : Type 0
Processes = Cmd → List Text × ProcessEnd

-- The machine as the runner shows it
abbrev pub run_by : Processes → Machine → Machine
run_by processes m = record m { stream = λ c. stream (processes c).0 (processes c).1 }

-- A verdict whose line is one line
abbrev pub IsPrintable : Verdict → Type 0
IsPrintable (infected path sig) =
    IsReadable (infected path sig) × (contains path 10 ≡ false) × (contains sig 10 ≡ false)
IsPrintable (clean path) = contains path 10 ≡ false

print-IsLine : (v : Verdict) → IsPrintable v → IsLine (print v)
unfolding trim_right
print-IsLine (infected path sig) h = (
  ground (
    arith,
    h.1,
    h.2,
    contains-append (path ++ separator ++ sig) found_end 10,
    contains-append (path ++ separator) sig 10,
    contains-append path separator 10,
  ),
  trim_right-append is_line_end (path ++ separator ++ sig) 32 (codes "FOUND") refl,
)
print-IsLine (clean path) h = (
  ground (arith, h, contains-append path (codes ": OK") 10),
  trim_right-append is_line_end path b':' (codes " OK") refl,
)

IsPrintable-IsReadable : (v : Verdict) → IsPrintable v → IsReadable v
IsPrintable-IsReadable (infected path sig) h = h.0
IsPrintable-IsReadable (clean path) h = tt

All-print : (vs : List Verdict) → All IsPrintable vs → All IsLine (map print vs)
All-print [] h = tt
All-print (v ∷ vs) h = (print-IsLine v h.0, All-print vs h.1)

-- A remark that is one line
abbrev pub IsRemarkLine : Text → Type 0
IsRemarkLine raw = IsRemark raw × IsLine raw

-- Where a scanner is installed, writes one line for each file and behind them any lines that are no
-- verdicts (its summary), cut into writes anywhere, and exits with 0 or 1, and the paths and
-- signatures have no line break and no signature is empty or has a colon, the scan succeeds: its
-- findings are the infected files with their signatures, in order and whatever else stands in their
-- paths, and it counts a result for each file.
pub scan-run_by :
    (processes : Processes) (m : Machine) (p : Text) (ps : List Text) (opts : ScanOptions)
    (vs : List Verdict) (remarks chunks : List Text) (code : ℕ)
    → (m.has_clamscan || m.has_clamdscan) ≡ true
    → processes (build_scan_cmd m (p ∷ ps) opts).0 ≡ (chunks, exit (pos code))
    → joined chunks ≡ unlines (map print vs ++ remarks)
    → All IsPrintable vs
    → All IsRemarkLine remarks
    → IsGood code
    → Shows vs (scan (run_by processes m) (p ∷ ps) opts).0.0
      × ((scan (run_by processes m) (p ∷ ps) opts).0.1 ≡ none)
unfolding build_scan_cmd
scan-run_by processes m p ps opts vs remarks chunks code installed output text printable quiet
      good =
    let runner = run_by processes m in
    let one_line =
      All-append IsLine (map print vs) remarks (All-print vs printable)
        (All-map (λ raw h. h.1) remarks quiet) in
    let lines = stream-unlines chunks (map print vs ++ remarks) (pos code) text one_line in
    scan-verdicts runner p ps opts vs remarks (end_error (exit (pos code))) installed
      (rw output lines) (All-map IsPrintable-IsReadable vs printable)
      (All-map (λ raw h. h.0) remarks quiet) (exit-IsDone code good)
