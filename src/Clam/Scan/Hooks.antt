-- ===== src/Clam/Scan/Hooks.antt =====
-- The hooks of a scan agree with its result, whatever the scanner writes.
use clamav_webui.Prelude.{
  ap, ◌⊎◌, ◌∙◌, inr, inl, ℕ, ◌+◌, ◌||◌, ◌≡◌, refl, sym, Text, Bool, true, false, Option, none, some,
  List, [], ◌∷◌, ◌++◌, append_assoc, append-nil, arith, length, Bool-cases, Option-cases, nat_beq,
}
use clamav_webui.Clam.Options.{ScanOptions}
use clamav_webui.Clam.Scan.{
  ScanFinding, ScanResult, ScanEvent, line, finding, progress, Machine, Cmd, scan, scan_lines,
  fill_scanned, fill_infected, stream_error, StreamError, build_scan_cmd, scan_line,
  parse_scan_line, run_command, finish, empty_result, read_match, read_summary, read_engine,
}

-- The findings that the hook was called with
abbrev pub reported : List ScanEvent → List ScanFinding
reported [] = []
reported (line s ∷ es) = reported es
reported (finding f ∷ es) = f ∷ reported es
reported (progress n m ∷ es) = reported es

-- The numbers of the last call of the progress hook, from those before
abbrev pub last_progress : ℕ × ℕ → List ScanEvent → ℕ × ℕ
last_progress seen [] = seen
last_progress seen (line s ∷ es) = last_progress seen es
last_progress seen (finding f ∷ es) = last_progress seen es
last_progress seen (progress n m ∷ es) = last_progress (n, m) es

-- The numbers that the hook shows
abbrev pub counts_of : ScanResult → ℕ × ℕ
counts_of r = (r.result_lines, length r.findings)

reported-append : (es fs : List ScanEvent) → reported (es ++ fs) ≡ reported es ++ reported fs
reported-append [] fs = refl
reported-append (line s ∷ es) fs = reported-append es fs
reported-append (finding f ∷ es) fs = rw (reported-append es fs) refl
reported-append (progress n m ∷ es) fs = reported-append es fs

last_progress-append :
    (seen : ℕ × ℕ) (es fs : List ScanEvent)
    → last_progress seen (es ++ fs) ≡ last_progress (last_progress seen es) fs
last_progress-append seen [] fs = refl
last_progress-append seen (line s ∷ es) fs = last_progress-append seen es fs
last_progress-append seen (finding f ∷ es) fs = last_progress-append seen es fs
last_progress-append seen (progress n m ∷ es) fs = last_progress-append (n, m) es fs

-- What a step of the reading keeps: the findings and the numbers are those that the hooks were given.
abbrev Agrees : ScanResult → ScanResult × List ScanEvent → Type 0
Agrees r out =
    (out.0.findings ≡ r.findings ++ reported out.1)
    × (counts_of out.0 ≡ last_progress (counts_of r) out.1)

-- A line changes neither, or is one more result.
abbrev IsStep : ScanResult → ScanResult × List ScanEvent → Type 0
IsStep r out =
    ((out.1 ≡ []) × (out.0.findings ≡ r.findings))
    ⊎ ((f : ScanFinding) × (out.1 ≡ finding f ∷ [])
        × (out.0.findings ≡ r.findings ++ f ∷ [])
        × (out.0.result_lines ≡ r.result_lines + 1))

read_match-IsStep :
    (found : Option (Text × Text)) (ok : Bool) (s : Text) (r : ScanResult)
    → IsStep r (read_match found ok s r)
unfolding read_match read_summary read_engine
read_match-IsStep (some (path, sig)) ok s r =
    inr (record { path = path; signature = sig }, refl, refl, refl)
read_match-IsStep none true s r = inl (refl, refl)
read_match-IsStep none false s r = inl (refl, ground arith)

parse_scan_line-IsStep : (raw : Text) (r : ScanResult) → IsStep r (parse_scan_line raw r)
unfolding parse_scan_line
parse_scan_line-IsStep raw r = read_match-IsStep _ _ _ r

scan_line-Agrees : (raw : Text) (r : ScanResult) → Agrees r (scan_line raw r)
unfolding scan_line
scan_line-Agrees raw r =
    let (r', found) = parse_scan_line raw r in
    elim (Bool-cases (nat_beq r'.result_lines r.result_lines)) [
      | inl same ↦ elim (parse_scan_line-IsStep raw r) [
        | inl (quiet, kept) ↦ (
          rw (same, quiet) (kept ∙ sym (append-nil r.findings)),
          rw (same, quiet) (ground (arith, same, kept)),
        )
        | inr (f, one, more, count) ↦ absurd (ground (arith, same, count))
      ]
      | inr other ↦ elim (parse_scan_line-IsStep raw r) [
        | inl (quiet, kept) ↦
            (rw (other, quiet) (kept ∙ sym (append-nil r.findings)), rw (other, quiet) refl)
        | inr (f, one, more, count) ↦ (rw (other, one) more, rw (other, one) refl)
      ]
    ]

scan_lines-Agrees : (raws : List Text) (r : ScanResult) → Agrees r (scan_lines raws r)
unfolding scan_lines
scan_lines-Agrees [] r = (sym (append-nil r.findings), refl)
scan_lines-Agrees (raw ∷ raws) r =
    let (r', events) = scan_line raw r in
    let (r'', more) = scan_lines raws r' in
    let first = scan_line-Agrees raw r in
    let rest = scan_lines-Agrees raws r' in
    (
      rest.0
          ∙ ap (λ (fs : List ScanFinding). fs ++ reported more) first.0
          ∙ append_assoc r.findings (reported events) (reported more)
          ∙ ap (λ (fs : List ScanFinding). r.findings ++ fs) (sym (reported-append events more)),
      rest.1
          ∙ ap (λ (seen : ℕ × ℕ). last_progress seen more) first.1
          ∙ sym (last_progress-append (counts_of r) events more),
    )

fill_keeps :
    (r : ScanResult)
    → let r' = fill_scanned (fill_infected r) in
      (r'.findings ≡ r.findings) × (r'.result_lines ≡ r.result_lines)
unfolding fill_scanned fill_infected
fill_keeps r = (ground arith, ground arith)

finish_keeps :
    (end : Option StreamError) (r : ScanResult)
    → let r' = (finish end r).0 in (r'.findings ≡ r.findings) × (r'.result_lines ≡ r.result_lines)
unfolding finish
finish_keeps end r = elim (Option-cases (stream_error end)) [
  | inl e ↦ rw (e, finish) (fill_keeps r)
  | inr (err, e) ↦ rw (e, finish) (refl, refl)
]

run_command-Agrees :
    (m : Machine) (choice : Cmd × Bool)
    → Agrees empty_result ((run_command m choice).0.0, (run_command m choice).1)
unfolding run_command
run_command-Agrees m (cmd, used_daemon) =
    let (raws, end) = m.stream cmd in
    let (r, events) = scan_lines raws (record empty_result { used_daemon = used_daemon }) in
    let agrees = scan_lines-Agrees raws (record empty_result { used_daemon = used_daemon }) in
    let kept = finish_keeps end r in (kept.0 ∙ agrees.0, rw (kept.0, kept.1) agrees.1)

-- Whatever the scanner writes and however it ends, the findings of the result are those that the finding hook was
-- called with, in their order, and the last numbers that the progress hook was given are the
-- result lines and the findings of the result.
pub scan_hooks :
    (m : Machine) (paths : List Text) (opts : ScanOptions)
    → let out = scan m paths opts in
      (out.0.0.findings ≡ reported out.1) × (counts_of out.0.0 ≡ last_progress (0, 0) out.1)
unfolding scan
scan_hooks m [] opts = (refl, refl)
scan_hooks m (p ∷ ps) opts = elim (Bool-cases (m.has_clamscan || m.has_clamdscan)) [
  | inl some_scanner ↦ rw some_scanner (run_command-Agrees m (build_scan_cmd m (p ∷ ps) opts))
  | inr no_scanner ↦ rw no_scanner (refl, refl)
]
