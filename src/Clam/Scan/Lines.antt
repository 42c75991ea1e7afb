-- ===== src/Clam/Scan/Lines.antt =====
-- How the lines of a scan's output are read.
use clamav_webui.Prelude.{
  ℕ, Text, ◌≡◌, ◌≢◌, refl, true, false, some, none, [], ◌∷◌, ◌++◌, ◌+◌, arith, All,
}
use clamav_webui.Prelude.Bytes.{codes, cut_prefix, trim_right}
use clamav_webui.Prelude.Bytes.Laws.{cut_suffix-append, cut_suffix_other, trim_right-append}
use clamav_webui.Clam.Scan.{
  ScanResult, finding, found_end, separator, split_last, split_here, put_path, non_empty,
  match_found, match_ok, split_found, is_return, parse_scan_line, read_match, read_summary,
  read_engine,
}

-- The lines that a scanner writes for a file
abbrev pub found_line : Text → Text → Text
found_line path sig = (path ++ separator ++ sig) ++ found_end

abbrev pub ok_line : Text → Text
ok_line path = path ++ codes ": OK"

abbrev pub HasNoColon : Text → Type 0
HasNoColon s = All (λ c. c ≢ b':') s

split_last-HasNoColon : (s : Text) → HasNoColon s → split_last s ≡ none
unfolding split_last cut_prefix put_path split_here
split_last-HasNoColon [] h = refl
split_last-HasNoColon (c ∷ s) h = ground (arith, split_last-HasNoColon s h.1, h.0)

split_last-append :
    (path : Text) (c : ℕ) (sig : Text)
    → HasNoColon (c ∷ sig)
    → split_last (path ++ separator ++ c ∷ sig) ≡ some (path, c ∷ sig)
unfolding split_last cut_prefix put_path split_here non_empty
split_last-append [] c sig h = rw (split_last-HasNoColon (c ∷ sig) h) refl
split_last-append (d ∷ path) c sig h = rw (split_last-append path c sig h) refl

pub match_found-found_line :
    (path : Text) (c : ℕ) (sig : Text)
    → HasNoColon (c ∷ sig)
    → match_found (found_line path (c ∷ sig)) ≡ some (path, c ∷ sig)
unfolding match_found split_found
match_found-found_line path c sig h =
    rw (cut_suffix-append (path ++ separator ++ c ∷ sig) found_end) (split_last-append path c sig h)

pub match_found-ok_line : (path : Text) → match_found (ok_line path) ≡ none
unfolding match_found split_found
match_found-ok_line path =
    rw (cut_suffix_other path 32 b':' (codes "FOUND") (codes " OK") (λ e. absurd (omega arith)))
      refl

pub match_ok-ok_line : (path : Text) → match_ok (ok_line path) ≡ true
unfolding match_ok
match_ok-ok_line path = rw (cut_suffix-append path (codes ": OK"), match_ok) refl

trim-found_line :
    (path sig : Text) → trim_right is_return (found_line path sig) ≡ found_line path sig
unfolding trim_right
trim-found_line path sig =
    trim_right-append is_return (path ++ separator ++ sig) 32 (codes "FOUND") refl

trim-ok_line : (path : Text) → trim_right is_return (ok_line path) ≡ ok_line path
unfolding trim_right
trim-ok_line path = trim_right-append is_return path b':' (codes " OK") refl

-- A line of an infected file, whatever its path, where the signature is not empty and has no colon
pub parse_scan_line-found_line :
    (path : Text) (c : ℕ) (sig : Text) (r : ScanResult)
    → HasNoColon (c ∷ sig)
    → parse_scan_line (found_line path (c ∷ sig)) r ≡ (
      record r {
        findings = r.findings ++ record { path = path; signature = c ∷ sig } ∷ [];
        result_lines = r.result_lines + 1;
      },
      finding (record { path = path; signature = c ∷ sig }) ∷ [],
    )
unfolding parse_scan_line read_match
parse_scan_line-found_line path c sig r h =
    rw (trim-found_line path (c ∷ sig)) (rw (match_found-found_line path c sig h) refl)

pub parse_scan_line-ok_line :
    (path : Text) (r : ScanResult)
    → parse_scan_line (ok_line path) r ≡ (record r { result_lines = r.result_lines + 1 }, [])
unfolding parse_scan_line read_match
parse_scan_line-ok_line path r =
    rw (trim-ok_line path) (rw (match_found-ok_line path) (rw (match_ok-ok_line path) refl))

-- A line that is no verdict, such as those of the summary
abbrev pub IsRemark : Text → Type 0
IsRemark raw =
    (match_found (trim_right is_return raw) ≡ none) × (match_ok (trim_right is_return raw) ≡ false)

pub parse_scan_line-IsRemark :
    (raw : Text) (r : ScanResult)
    → IsRemark raw
    → ((parse_scan_line raw r).0.findings ≡ r.findings)
      × ((parse_scan_line raw r).0.result_lines ≡ r.result_lines)
unfolding parse_scan_line read_match read_summary read_engine
parse_scan_line-IsRemark raw r h = (ground (arith, h.0, h.1), ground (arith, h.0, h.1))
