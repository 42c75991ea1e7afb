-- ===== src/Clam/Journal/Colons.antt =====
-- What is read of a path without a colon, and of one with a colon.
use clamav_webui.Prelude.{
  ℕ, ◌≡◌, ◌≢◌, refl, ◌∙◌, Text, true, false, none, some, [], ◌∷◌, ◌++◌, All, arith, nat_beq,
  append_assoc, append-nil,
}
use clamav_webui.Prelude.Bytes.{is_space, cut_prefix, take_while, trim_left}
use clamav_webui.Prelude.Bytes.Laws.{take_while-append, trim_left-append, cut_suffix-append, last}
use clamav_webui.Clam.Scan.{found_end, separator}
use clamav_webui.Clam.Journal.{
  is_no_colon, read_sig, read_rest, match_path, find_path, parse_on_access_found, trim_both,
}

abbrev pub HasNoColon : Text → Type 0
HasNoColon s = All (λ c. is_no_colon c ≡ true) s

-- The rest of a line behind the path, whose signature is `e ∷ sig`
abbrev pub behind : ℕ → Text → Text
behind e sig = separator ++ ((e ∷ sig) ++ found_end)

match_path-path :
    (c : ℕ) (d : Text) (e : ℕ) (sig : Text)
    → is_space c ≡ false
    → HasNoColon d
    → is_space e ≡ false
    → match_path (b'/' ∷ c ∷ d ++ behind e sig) ≡ some (b'/' ∷ c ∷ d, e ∷ sig)
unfolding match_path read_rest read_sig cut_prefix take_while trim_left
match_path-path c d e sig hc hd he = rw hc (
    rw (take_while-append is_no_colon d (behind e sig) hd) (
      rw (trim_left-append is_no_colon d (behind e sig) hd)
        (rw (cut_suffix-append (e ∷ sig) found_end) (rw he (rw (append-nil d) refl)))))

-- A text up to a colon that "/" follows, and that does not stand right behind a "/"
no_match :
    (a rest : Text)
    → HasNoColon a
    → last b':' a ≢ b'/'
    → match_path (a ++ b':' ∷ b'/' ∷ rest) ≡ none
unfolding match_path read_rest cut_prefix take_while trim_left
no_match [] rest h n = refl
no_match (x ∷ []) rest h n = ground (arith, n)
no_match (x ∷ y ∷ a) rest h n =
    rw (trim_left-append is_no_colon a (b':' ∷ b'/' ∷ rest) h.1.1) (ground arith)

last-tail : (x : ℕ) (a : Text) → last b':' (x ∷ a) ≢ b'/' → last b':' a ≢ b'/'
last-tail x [] n = λ e. absurd (omega (arith, e))
last-tail x (y ∷ a) n = n

find_path-next : (c : ℕ) (s : Text) → match_path (c ∷ s) ≡ none → find_path (c ∷ s) ≡ find_path s
unfolding find_path
find_path-next c s e = rw (e, find_path) refl

find_path-here :
    (c : ℕ) (s : Text) (found : Text × Text)
    → match_path (c ∷ s) ≡ some found
    → find_path (c ∷ s) ≡ some found
unfolding find_path
find_path-here c s found e = rw (e, find_path) refl

find_path-colon :
    (a rest : Text)
    → HasNoColon a
    → last b':' a ≢ b'/'
    → find_path (a ++ b':' ∷ b'/' ∷ rest) ≡ find_path (b'/' ∷ rest)
unfolding find_path match_path
find_path-colon [] rest h n = refl
find_path-colon (x ∷ a) rest h n =
    find_path-next x (a ++ b':' ∷ b'/' ∷ rest) (no_match (x ∷ a) rest h n)
    ∙ find_path-colon a rest h.1 (last-tail x a n)

abbrev pub HasNoSlash : Text → Type 0
HasNoSlash s = All (λ c. nat_beq c b'/' ≡ false) s

match_path-other : (c : ℕ) (s : Text) → nat_beq c b'/' ≡ false → match_path (c ∷ s) ≡ none
unfolding match_path
match_path-other c [] h = refl
match_path-other c (d ∷ s) h = rw h refl

find_path-append : (pre s : Text) → HasNoSlash pre → find_path (pre ++ s) ≡ find_path s
unfolding find_path
find_path-append [] s h = refl
find_path-append (c ∷ pre) s h =
    find_path-next c (pre ++ s) (match_path-other c (pre ++ s) h.0) ∙ find_path-append pre s h.1

find_path-path :
    (c : ℕ) (d : Text) (e : ℕ) (sig : Text)
    → is_space c ≡ false
    → HasNoColon d
    → is_space e ≡ false
    → find_path (b'/' ∷ c ∷ d ++ behind e sig) ≡ some (b'/' ∷ c ∷ d, e ∷ sig)
find_path-path c d e sig hc hd he =
    find_path-here b'/' (c ∷ d ++ behind e sig) _ (match_path-path c d e sig hc hd he)

-- A line that reports `e ∷ sig` in the file `path`
abbrev pub journal_line : Text → Text → ℕ → Text → Text
journal_line pre path e sig = pre ++ (path ++ behind e sig)

module _ (trim : Text → Text) (pre : Text) (c : ℕ) (d : Text) (e : ℕ) (sig : Text)
    (plain : HasNoSlash pre) (hc : is_space c ≡ false) (hd : HasNoColon d) (he : is_space e ≡ false)
    (trimmed : trim (b'/' ∷ c ∷ d) ≡ b'/' ∷ c ∷ d) (trimmed_sig : trim (e ∷ sig) ≡ e ∷ sig) where
  -- The line of a file whose path, behind its second byte, has no colon is read as this path and its signature: where
  -- trimming changes neither them nor the line, no space stands behind the first "/" or begins the
  -- signature, and no "/" stands before the path.
  pub parse_on_access_found-journal_line :
      trim (journal_line pre (b'/' ∷ c ∷ d) e sig) ≡ journal_line pre (b'/' ∷ c ∷ d) e sig
      → parse_on_access_found trim (journal_line pre (b'/' ∷ c ∷ d) e sig)
        ≡ some (b'/' ∷ c ∷ d, e ∷ sig)
  unfolding parse_on_access_found trim_both
  parse_on_access_found-journal_line line = rw line (
      rw (find_path-append pre (b'/' ∷ c ∷ d ++ behind e sig) plain)
        (rw (find_path-path c d e sig hc hd he) (rw (trimmed, trimmed_sig) refl)))

  -- A file below a directory whose name ends in a colon is read as another file: of `a:/c…` only the `/c…` is taken.
  -- Here `a` has no colon and does not end in "/"; the rest is as for a path that is read right.
  pub parse_on_access_found-colon :
      (a : Text)
      → HasNoColon a
      → last b':' a ≢ b'/'
      → trim (journal_line pre (a ++ b':' ∷ b'/' ∷ c ∷ d) e sig)
        ≡ journal_line pre (a ++ b':' ∷ b'/' ∷ c ∷ d) e sig
      → parse_on_access_found trim (journal_line pre (a ++ b':' ∷ b'/' ∷ c ∷ d) e sig)
        ≡ some (b'/' ∷ c ∷ d, e ∷ sig)
  unfolding parse_on_access_found trim_both
  parse_on_access_found-colon a ha n line = rw line (
      rw (find_path-append pre ((a ++ b':' ∷ b'/' ∷ c ∷ d) ++ behind e sig) plain) (
        rw (append_assoc a (b':' ∷ b'/' ∷ c ∷ d) (behind e sig)) (
          rw (find_path-colon a (c ∷ d ++ behind e sig) ha n)
            (rw (find_path-path c d e sig hc hd he) (rw (trimmed, trimmed_sig) refl)))))
