-- ===== src/Clam/Exec/Output.antt =====
-- What is kept of a process's output, and how it is split into lines.
use clamav_webui.Prelude.{
  ℕ, ◌-◌, ◌≡◌, ◌⊎◌, ◌≤◌, refl, sym, ap, ◌∙◌, Text, false, List, [], ◌∷◌, ◌++◌, append_assoc,
  append-nil, arith, length, take, Bool-cases, nat_beq, ltb, zero, suc, All, contains, text_eq,
  nat_eq, inl, inr,
}
use clamav_webui.Prelude.Int.{ℤ, pos}
use clamav_webui.Clam.Scan.Verdicts.{IsDone}
use clamav_webui.Prelude.Bytes.{trim_right}
use clamav_webui.Prelude.Bytes.Laws.{trim_right_snoc}
use clamav_webui.Clam.Exec.{
  exit_error, end_error, LimitedWriter, write, write_all, joined, read_lines, pass_on, is_line_end,
  stream, exit, run, Process, max_captured_output,
}

take-append : (n : ℕ) (p q : Text) → take n (p ++ q) ≡ take n p ++ take (n - length p) q
take-append zero p q = ground arith
take-append (suc n) [] q = ground arith
take-append (suc n) (c ∷ p) q = rw (take-append n p q) (ground arith)

take_all : (n : ℕ) (p : Text) → length p ≤ n → take n p ≡ p
take_all zero [] h = refl
take_all zero (c ∷ p) h = absurd (omega (arith, h))
take_all (suc n) [] h = refl
take_all (suc n) (c ∷ p) h = rw (take_all n p (omega (arith, h))) refl

length-take : (n : ℕ) (p : Text) → length (take n p) ≤ n
length-take zero p = omega arith
length-take (suc n) [] = omega arith
length-take (suc n) (c ∷ p) = omega (arith, length-take n p)

take-nil : (n : ℕ) → take {A = ℕ} n [] ≡ []
take-nil zero = refl
take-nil (suc n) = refl

take_none : (n : ℕ) (p : Text) → n ≤ 0 → take n p ≡ []
take_none zero p h = refl
take_none (suc n) p h = absurd (omega (arith, h))

write_lem :
    (w : LimitedWriter) (p : Text)
    → (write w p).0 ≡ record { buf = w.buf ++ take w.n p; n = w.n - length p }
unfolding write
write_lem w p = elim (Bool-cases (ltb 0 w.n)) [
  | inl room ↦ elim (Bool-cases (ltb w.n (length p))) [
    | inl over ↦ rw (room, over) (ground (arith, over))
    | inr fits ↦ rw (room, fits) (ground (arith, fits, take_all w.n p, take_all (length p) p))
  ]
  | inr full ↦ rw full (ground (arith, full, take_none w.n p, append-nil w.buf))
]

write_all-buf :
    (ps : List Text) (w : LimitedWriter) → (write_all w ps).buf ≡ w.buf ++ take w.n (joined ps)
unfolding write_all joined
write_all-buf [] w = rw (take-nil w.n) (sym (append-nil w.buf))
write_all-buf (p ∷ ps) w =
    rw (write_all, write_lem w p)
      (write_all-buf ps (record { buf = w.buf ++ take w.n p; n = w.n - length p })
        ∙ append_assoc w.buf (take w.n p) (take (w.n - length p) (joined ps))
        ∙ ap (λ (s : Text). w.buf ++ s) (sym (take-append w.n p (joined ps))))

captured :
    (n : ℕ) (ps : List Text)
    → let kept = (write_all (record { buf = []; n = n }) ps).buf in
      (kept ≡ take n (joined ps)) × (length kept ≤ n)
captured n ps =
    let whole = write_all-buf ps (record { buf = []; n = n }) in
    (whole, rw whole (length-take n (joined ps)))

-- However a process cuts its output into writes, what is kept of each of its outputs is the first 8 MiB of all
-- that it wrote there, and no more.
pub run_output :
    (p : Process)
    → let r = (run p).0 in
      (r.stdout ≡ take max_captured_output (joined p.stdout))
      × (r.stderr ≡ take max_captured_output (joined p.stderr))
      × (length r.stdout ≤ max_captured_output)
      × (length r.stderr ≤ max_captured_output)
unfolding run
run_output p =
    let out = captured max_captured_output p.stdout in
    let err = captured max_captured_output p.stderr in (out.0, err.0, out.1, err.1)

-- Lines as a process writes them, each with its end
abbrev pub unlines : List Text → Text
unlines [] = []
unlines (l ∷ ls) = l ++ 10 ∷ unlines ls

-- A line has no "\n" and does not end in "\r".
abbrev pub IsLine : Text → Type 0
IsLine l = (contains l 10 ≡ false) × (trim_right is_line_end l ≡ l)

pass_on-snoc :
    (s : Text) (c : ℕ) (rest : List Text)
    → pass_on (s ++ c ∷ []) rest ≡ trim_right is_line_end (s ++ c ∷ []) ∷ rest
unfolding pass_on
pass_on-snoc [] c rest = refl
pass_on-snoc (d ∷ s) c rest = refl

read_lines-line :
    (l part rest : Text)
    → contains l 10 ≡ false
    → read_lines part (l ++ 10 ∷ rest) ≡ trim_right is_line_end (part ++ l) ∷ read_lines [] rest
unfolding read_lines
read_lines-line [] part rest h =
    rw (pass_on-snoc part 10 (read_lines [] rest))
      (rw (trim_right_snoc is_line_end part 10 refl) (rw (append-nil part) refl))
read_lines-line (c ∷ l) part rest h = elim (Bool-cases (nat_beq c 10)) [
  | inl newline ↦ absurd (ground (arith, newline, h))
  | inr other ↦ rw other (
      rw (read_lines-line l (part ++ c ∷ []) rest (ground (arith, other, h)))
        (rw (append_assoc part (c ∷ []) l) refl))
]

read_lines-unlines : (ls : List Text) → All IsLine ls → read_lines [] (unlines ls) ≡ ls
unfolding read_lines pass_on
read_lines-unlines [] h = refl
read_lines-unlines (l ∷ ls) h =
    rw (read_lines-line l [] (unlines ls) h.0.0) (rw (h.0.1) (rw (read_lines-unlines ls h.1) refl))

-- A process that is started and writes lines, cut into writes anywhere, has exactly these lines passed on, and
-- the error of its exit.
pub stream-unlines :
    (chunks : List Text) (ls : List Text) (code : ℤ)
    → joined chunks ≡ unlines ls
    → All IsLine ls
    → stream chunks (exit code) ≡ (ls, end_error (exit code))
unfolding stream
stream-unlines chunks ls code e h = rw e (rw (read_lines-unlines ls h) refl)

abbrev pub IsGood : ℕ → Type 0
IsGood code = (code ≡ 0) ⊎ (code ≡ 1)

pub exit-IsDone : (code : ℕ) → IsGood code → IsDone (end_error (exit (pos code)))
unfolding end_error exit_error
exit-IsDone code (inl e) = inl (rw e refl)
exit-IsDone code (inr e) = inr (rw e refl)
