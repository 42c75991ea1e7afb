-- ===== src/Prelude/Bytes/Laws.antt =====
-- Laws of the functions on bytes.
use Prim.Native.Nat.{ℕ, zero, suc, ◌+◌, ◌/◌, ◌%◌, ◌≤◌, ◌<◌}
use mathlib.Core.Path.{sym, ◌∙◌, ap, ◌≡◌, refl}
use mathlib.Core.Logic.{inl, inr, ◌≢◌}
use mathlib.Core.Bool.{Bool, true, false, ◌||◌}
use mathlib.Core.Option.{some}
use mathlib.Core.List.{[], ◌∷◌, ◌++◌}
use native.Mathlib.Omega.{arith}
use clamav_webui.Prelude.Tests.{Option-cases, ltb, Bool-cases}
use clamav_webui.Prelude.Eq.{Text, text_beq, text_beq_iff, contains, nat_eq}
use clamav_webui.Prelude.Lists.{length, length-append, All}
use clamav_webui.Prelude.Bytes.{
  put_first, split_at, none, is_digit, cut_prefix, cut_suffix, put_head, trim_right, trim_left,
  put_kept, take_while, value_from, atoi, max_int, digits_onto, itoa,
}

pub cut_prefix-append : (p s : Text) → cut_prefix p (p ++ s) ≡ some s
unfolding cut_prefix
cut_prefix-append [] s = refl
cut_prefix-append (c ∷ p) s = ground (arith, cut_prefix-append p s)

append_longer : (c : ℕ) (s p : Text) → text_beq (c ∷ s ++ p) p ≡ false
append_longer c s p = elim (Bool-cases (text_beq (c ∷ s ++ p) p)) [
  | inl e ↦
      let same = (text_beq_iff (c ∷ s ++ p) p).0 e in
      absurd (omega (arith, ap length same, length-append s p))
  | inr e ↦ e
]

cut_suffix_self : (p : Text) → cut_suffix p p ≡ some []
unfolding cut_suffix
cut_suffix_self [] = refl
cut_suffix_self (c ∷ p) = rw ((text_beq_iff (c ∷ p) (c ∷ p)).1 refl) refl

pub cut_suffix-append : (s p : Text) → cut_suffix p (s ++ p) ≡ some s
unfolding cut_suffix put_head
cut_suffix-append [] p = cut_suffix_self p
cut_suffix-append (c ∷ s) p = rw (append_longer c s p) (rw (cut_suffix-append s p) refl)

-- What is before a suffix that was cut, and the suffix, make the text.
pub cut_suffix_sound : (p s body : Text) → cut_suffix p s ≡ some body → s ≡ body ++ p
unfolding cut_suffix put_head
cut_suffix_sound p [] body h = ground (arith, h, text_beq_iff [] p)
cut_suffix_sound p (c ∷ s) body h = elim (Bool-cases (text_beq (c ∷ s) p)) [
  | inl e ↦ ground (arith, h, e, text_beq_iff (c ∷ s) p)
  | inr e ↦ elim (Option-cases (cut_suffix p s)) [
    | inl k ↦ ground (arith, h, e, k)
    | inr (rest, k) ↦
        let same = cut_suffix_sound p s rest k in
        let parts : c ∷ rest ≡ body = ground (arith, h, e, k) in
        rw (← parts) (ap (λ (t : Text). c ∷ t) same)
  ]
]

-- The last byte of a text, behind a byte
abbrev pub last : ℕ → Text → ℕ
last c [] = c
last c (d ∷ s) = last d s

pub last-append : (c : ℕ) (s : Text) (d : ℕ) (t : Text) → last c (s ++ d ∷ t) ≡ last d t
last-append c [] d t = refl
last-append c (e ∷ s) d t = last-append e s d t

-- Two texts that end in different bytes have no suffix of one another's.
pub cut_suffix_other :
    (s : Text) (c d : ℕ) (p t : Text) → last d t ≢ last c p → cut_suffix (c ∷ p) (s ++ d ∷ t) ≡ none
cut_suffix_other s c d p t h = elim (Option-cases (cut_suffix (c ∷ p) (s ++ d ∷ t))) [
  | inl e ↦ e
  | inr (body, e) ↦
      let same = ap (last 0) (cut_suffix_sound (c ∷ p) (s ++ d ∷ t) body e) in
      absurd (h (sym (last-append 0 s d t) ∙ same ∙ last-append 0 body c p))
]

-- An end that is not trimmed keeps all before it.
pub trim_right-append :
    (drop : ℕ → Bool) (s : Text) (d : ℕ) (t : Text)
    → trim_right drop (d ∷ t) ≡ d ∷ t
    → trim_right drop (s ++ d ∷ t) ≡ s ++ d ∷ t
unfolding trim_right put_kept
trim_right-append drop [] d t h = h
trim_right-append drop (c ∷ []) d t h = rw h refl
trim_right-append drop (c ∷ e ∷ s) d t h = rw (trim_right-append drop (e ∷ s) d t h) refl

pub contains-append :
    (xs ys : Text) (c : ℕ) → contains (xs ++ ys) c ≡ (contains xs c || contains ys c)
contains-append [] ys c = refl
contains-append (x ∷ xs) ys c = ground (arith, contains-append xs ys c)

pub trim_right_cons :
    (drop : ℕ → Bool) (d : ℕ) (t : Text)
    → drop d ≡ false
    → trim_right drop t ≡ t
    → trim_right drop (d ∷ t) ≡ d ∷ t
unfolding trim_right put_kept
trim_right_cons drop d [] h k = rw h refl
trim_right_cons drop d (e ∷ t) h k = rw k refl

pub split_at-append :
    (c : ℕ) (s rest : Text)
    → contains s c ≡ false
    → split_at c (s ++ c ∷ rest) ≡ s ∷ split_at c rest
unfolding split_at put_first
split_at-append c [] rest h = ground (arith)
split_at-append c (d ∷ s) rest h = ground (arith, h, split_at-append c s rest)

pub trim_right_snoc :
    (drop : ℕ → Bool) (s : Text) (c : ℕ)
    → drop c ≡ true
    → trim_right drop (s ++ c ∷ []) ≡ trim_right drop s
unfolding trim_right put_kept
trim_right_snoc drop [] c h = rw h refl
trim_right_snoc drop (d ∷ s) c h = rw (trim_right_snoc drop s c h) refl

pub take_while-append :
    (test : ℕ → Bool) (s t : Text)
    → All (λ c. test c ≡ true) s
    → take_while test (s ++ t) ≡ s ++ take_while test t
unfolding take_while
take_while-append test [] t h = refl
take_while-append test (c ∷ s) t h = rw h.0 (rw (take_while-append test s t h.1) refl)

pub trim_left-append :
    (drop : ℕ → Bool) (s t : Text)
    → All (λ c. drop c ≡ true) s
    → trim_left drop (s ++ t) ≡ trim_left drop t
unfolding trim_left
trim_left-append drop [] t h = refl
trim_left-append drop (c ∷ s) t h = rw h.0 (trim_left-append drop s t h.1)

value_from-digits_onto :
    (f n : ℕ) (out : Text) → n < f → value_from 0 (digits_onto f n out) ≡ value_from n out
unfolding value_from digits_onto
value_from-digits_onto zero n out h = absurd (omega arith)
value_from-digits_onto (suc f) n out h = elim (Bool-cases (ltb n 10)) [
  | inl small ↦ rw small (ap (λ (m : ℕ). value_from m out) (omega arith))
  | inr large ↦ rw large (
      value_from-digits_onto f (n / 10) ((n % 10 + b'0') ∷ out) (ground arith)
      ∙ ap (λ (m : ℕ). value_from m out) (omega arith))
]

pub value_from-itoa : (n : ℕ) → value_from 0 (itoa n) ≡ n
unfolding itoa value_from
value_from-itoa n = value_from-digits_onto (suc n) n [] (omega arith)

pub atoi-itoa : (n : ℕ) → n ≤ max_int → atoi (itoa n) ≡ n
unfolding atoi
atoi-itoa n h = ground (arith, value_from-itoa n)

digits_onto-digits :
    (f n : ℕ) (out : Text)
    → n < f
    → All (λ c. is_digit c ≡ true) out
    → All (λ c. is_digit c ≡ true) (digits_onto f n out)
unfolding digits_onto is_digit
digits_onto-digits zero n out h d = d
digits_onto-digits (suc f) n out h d = elim (Bool-cases (ltb n 10)) [
  | inl small ↦ rw small (ground arith, d)
  | inr large ↦
      rw large
        (digits_onto-digits f (n / 10) ((n % 10 + b'0') ∷ out) (ground arith) (ground arith, d))
]

pub itoa-digits : (n : ℕ) → All (λ c. is_digit c ≡ true) (itoa n)
unfolding itoa
itoa-digits n = digits_onto-digits (suc n) n [] (omega arith) tt
