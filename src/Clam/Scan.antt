-- ===== src/Clam/Scan.antt =====
-- internal/clamav/scan.go: the command of a scan, the reading of its output line by line, and its
-- result. The output and the way in which the command ends are what the runner is asked for.
pub mod Lines
pub mod Hooks
pub mod Verdicts
mod Tests
use clamav_webui.Prelude.{
  suc, ℕ, zero, suc, ◌+◌, String, Text, Bool, true, false, not, ◌&&◌, ◌||◌, Option, none, some,
  List, [], ◌∷◌, ◌++◌, ◌==◌, text_eq, nat_beq, ltb, length, map, if◌then◌else◌,
}
use clamav_webui.Prelude.Int.{ℤ, pos, negsuc}
use clamav_webui.Prelude.Bytes.{
  codes, is_space, is_digit, cut_prefix, cut_suffix, put_head, trim_right, trim_left, take_while,
  atoi, itoa,
}
use clamav_webui.Clam.Options.{ScanOptions}

pub record ScanFinding : Type 0 where
  pub path : Text
  pub signature : Text

pub record ScanResult : Type 0 where
  pub used_daemon : Bool
  pub engine_version : Text
  pub scanned : ℕ
  pub infected : ℕ
  pub findings : List ScanFinding
  pub result_lines : ℕ

-- The calls of the hooks
pub data ScanEvent : Type 0 where
  line : Text → ScanEvent
  finding : ScanFinding → ScanEvent
  progress : ℕ → ℕ → ScanEvent

abbrev pub found_end : Text
found_end = codes " FOUND"

abbrev pub separator : Text
separator = b':' ∷ 32 ∷ []

-- A rest that `.+` matches
non_empty : Text → Option (Text × Text)
non_empty [] = none
non_empty (c ∷ s) = some ([], c ∷ s)

split_here : Option Text → Option (Text × Text)
split_here none = none
split_here (some rest) = non_empty rest

put_path : ℕ → Option (Text × Text) → Option (Text × Text) → Option (Text × Text)
put_path c none here = here
put_path c (some (path, rest)) here = some (c ∷ path, rest)

-- `(.*): (.+)` on a whole text: the last separator with something behind it
unfoldable pub split_last : Text → Option (Text × Text)
unfolding put_path split_here non_empty
split_last [] = none
split_last (c ∷ s) = put_path c (split_last s) (split_here (cut_prefix separator (c ∷ s)))

split_found : Option Text → Option (Text × Text)
split_found none = none
split_found (some body) = split_last body

-- `^(.*): (.+) FOUND$`
unfoldable pub match_found : Text → Option (Text × Text)
unfolding split_found
match_found s = split_found (cut_suffix found_end s)

-- `: OK$`
unfoldable pub match_ok : Text → Bool
match_ok s = elim (cut_suffix (codes ": OK") s) [ none ↦ false | some r ↦ true ]

-- `label:\s*(\d+)` at the start of a line: the number, where there is a digit
match_digits : Text → Option Text
match_digits [] = none
match_digits (c ∷ s) = some (c ∷ s)

match_label : Option Text → Option Text
match_label none = none
match_label (some rest) = match_digits (take_while is_digit (trim_left is_space rest))

unfoldable pub match_count : Text → Text → Option Text
unfolding match_label match_digits
match_count label s = match_label (cut_prefix label s)

match_word : Option Text → Option Text
match_word none = none
match_word (some rest) = match_digits (take_while (λ c. not (is_space c)) (trim_left is_space rest))

-- `^Engine version:\s*(\S+)`
unfoldable pub match_engine : Text → Option Text
unfolding match_word match_digits
match_engine s = match_word (cut_prefix (codes "Engine version:") s)

-- The lines of the summary and of the engine
read_engine : Option Text → ScanResult → ScanResult
read_engine none r = r
read_engine (some v) r = record r { engine_version = v }

read_summary : Option Text → Option Text → Option Text → Text → ScanResult → ScanResult
read_summary (some n) scanned errors s r = record r { infected = atoi n }
read_summary none (some n) errors s r = record r { scanned = atoi n }
read_summary none none (some n) s r = r
read_summary none none none s r = read_engine (match_engine s) r

-- A line without its "\r", of which the two matches of a result are known
read_match : Option (Text × Text) → Bool → Text → ScanResult → ScanResult × List ScanEvent
read_match (some (path, sig)) ok s r =
    let f : ScanFinding = record { path = path; signature = sig } in
    (
      record r { findings = r.findings ++ f ∷ []; result_lines = r.result_lines + 1 },
      finding f ∷ [],
    )
read_match none true s r = (record r { result_lines = r.result_lines + 1 }, [])
read_match none false s r = (
  read_summary (match_count (codes "Infected files:") s) (match_count (codes "Scanned files:") s)
      (match_count (codes "Total errors:") s) s r,
  [],
)

abbrev pub is_return : ℕ → Bool
is_return c = nat_beq c 13

-- `parseScanLine`: the result so far, and the calls of `onFinding`
unfoldable pub parse_scan_line : Text → ScanResult → ScanResult × List ScanEvent
unfolding read_match read_summary read_engine
parse_scan_line raw r =
    let s = trim_right is_return raw in read_match (match_found s) (match_ok s) s r

-- The function that the runner calls for each line
unfoldable pub scan_line : Text → ScanResult → ScanResult × List ScanEvent
scan_line raw r =
    let (r', found) = parse_scan_line raw r in
    (
      r',
      line raw ∷ found
          ++ (if nat_beq r'.result_lines r.result_lines
              then []
              else progress r'.result_lines (length r'.findings) ∷ []),
    )

unfoldable pub scan_lines : List Text → ScanResult → ScanResult × List ScanEvent
scan_lines [] r = (r, [])
scan_lines (raw ∷ raws) r =
    let (r', events) = scan_line raw r in
    let (r'', more) = scan_lines raws r' in (r'', events ++ more)

pub record Cmd : Type 0 where
  pub name : Text
  pub args : List Text

-- An exit other than 0, or any other error
pub data StreamError : Type 0 where
  exited : ℤ → StreamError
  failed : StreamError

pub data ScanError : Type 0 where
  no_paths not_installed : ScanError
  stream_failed : StreamError → ScanError

-- What a scan asks of the machine: the two scanners, the daemon (`none` where its state cannot be
-- read), and the lines and the end of a command.
pub record Machine : Type 0 where
  pub has_clamscan : Bool
  pub has_clamdscan : Bool
  pub daemon : Option Text
  pub stream : Cmd → List Text × Option StreamError

is_active : Option Text → Bool
is_active none = false
is_active (some active) = active == codes "active"

size_arg : Text → ℤ → List Text
size_arg flag (pos zero) = []
size_arg flag (pos (suc n)) = (flag ++ itoa (suc n) ++ codes "M") ∷ []
size_arg flag (negsuc n) = []

-- `buildScanCmd`
unfoldable pub build_scan_cmd : Machine → List Text → ScanOptions → Cmd × Bool
unfolding is_active size_arg
build_scan_cmd m paths opts =
    if m.has_clamdscan && not opts.force_clamscan && is_active m.daemon
    then (
      record {
        name = codes "clamdscan";
        args = codes "--fdpass" ∷ codes "--multiscan" ∷ codes "--stdout" ∷ paths;
      },
      true,
    )
    else (
      record {
        name = codes "clamscan";
        args =
            codes "--stdout"
            ∷ ((if opts.recursive then codes "--recursive" ∷ [] else [])
                ++ ((if opts.follow_symlinks
                      then codes "--follow-dir-symlinks=2" ∷ codes "--follow-file-symlinks=2" ∷ []
                      else [])
                    ++ (size_arg (codes "--max-filesize=") opts.max_file_size_mb
                        ++ (size_arg (codes "--max-scansize=") opts.max_scan_size_mb ++ paths))));
      },
      false,
    )

join_args : List Text → Text
join_args [] = []
join_args (a ∷ []) = a
join_args (a ∷ b ∷ as') = a ++ 32 ∷ join_args (b ∷ as')

abbrev pub empty_result : ScanResult
empty_result = record {
  used_daemon = false;
  engine_version = [];
  scanned = 0;
  infected = 0;
  findings = [];
  result_lines = 0;
}

-- `errors.As` and the code 1
stream_error : Option StreamError → Option StreamError
stream_error none = none
stream_error (some failed) = some failed
stream_error (some (exited (pos n))) = if nat_beq n 1 then none else some (exited (pos n))
stream_error (some (exited (negsuc n))) = some (exited (negsuc n))

fill_infected : ScanResult → ScanResult
fill_infected r =
    if nat_beq r.infected 0 && ltb 0 (length r.findings)
    then record r { infected = length r.findings }
    else r

fill_scanned : ScanResult → ScanResult
fill_scanned r = if nat_beq r.scanned 0 then record r { scanned = r.result_lines } else r

unfoldable pub finish : Option StreamError → ScanResult → ScanResult × Option ScanError
unfolding stream_error fill_infected fill_scanned
finish end r = elim (stream_error end) [
  | some e ↦ (r, some (stream_failed e))
  | none ↦ (fill_scanned (fill_infected r), none)
]

run_command : Machine → Cmd × Bool → (ScanResult × Option ScanError) × List ScanEvent
run_command m (cmd, used_daemon) =
    let (raws, end) = m.stream cmd in
    let (r, events) = scan_lines raws (record empty_result { used_daemon = used_daemon }) in
    (finish end r, line (codes "$ " ++ cmd.name ++ 32 ∷ join_args cmd.args) ∷ events)

-- `Scan`: the result, the error, and the calls of the hooks in their order
unfoldable pub scan :
    Machine → List Text → ScanOptions → (ScanResult × Option ScanError) × List ScanEvent
unfolding run_command join_args
scan m [] opts = ((empty_result, some no_paths), [])
scan m (p ∷ ps) opts =
    if m.has_clamscan || m.has_clamdscan
    then run_command m (build_scan_cmd m (p ∷ ps) opts)
    else ((empty_result, some not_installed), [])
