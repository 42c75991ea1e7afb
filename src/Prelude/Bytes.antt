-- ===== src/Prelude/Bytes.antt =====
-- What the program uses of `strings` and `strconv`, on bytes.
pub mod Laws
use Prim.Native.Char.{code}
use clamav_webui.Prelude.Tests.{ltb, leb, nat_beq, if◌then◌else◌}
use clamav_webui.Prelude.Lists.{length}
use clamav_webui.Prelude.Eq.{Text, ◌==◌, text_eq, text_beq}
use Prim.Native.Nat.{ℕ, zero, suc, ◌+◌, ◌-◌, ◌*◌, ◌/◌, ◌%◌, min}
use Prim.Native.String
use Prim.Native.String.{String}
use mathlib.Core.Bool.{Bool, true, false, ◌&&◌, ◌||◌}
use mathlib.Core.Option.{Option, none, some}
use mathlib.Core.List.{List, [], ◌∷◌, ◌++◌}

-- The bytes of a text of ASCII
abbrev pub codes : String → Text
codes String.[] = []
codes (String.◌∷◌ c s) = code c ∷ codes s

-- the space of `\s` in a regular expression
unfoldable pub is_space : ℕ → Bool
is_space c = nat_beq c 32 || nat_beq c 9 || nat_beq c 10 || nat_beq c 12 || nat_beq c 13

unfoldable pub is_digit : ℕ → Bool
is_digit c = leb b'0' c && leb c b'9'

-- strings.CutPrefix, the prefix first
unfoldable pub cut_prefix : Text → Text → Option Text
cut_prefix [] s = some s
cut_prefix (c ∷ p) [] = none
cut_prefix (c ∷ p) (d ∷ s) = let rest = cut_prefix p s in if nat_beq c d then rest else none

unfoldable pub put_head : ℕ → Option Text → Option Text
put_head c none = none
put_head c (some s) = some (c ∷ s)

-- strings.CutSuffix, the suffix first
unfoldable pub cut_suffix : Text → Text → Option Text
unfolding put_head
cut_suffix p [] = if text_beq [] p then some [] else none
cut_suffix p (c ∷ s) =
    let rest = cut_suffix p s in if text_beq (c ∷ s) p then some [] else put_head c rest

-- strings.TrimRight of the bytes that the test accepts
put_kept : (ℕ → Bool) → ℕ → Text → Text
put_kept drop c [] = if drop c then [] else c ∷ []
put_kept drop c (d ∷ s) = c ∷ d ∷ s

unfoldable pub trim_right : (ℕ → Bool) → Text → Text
unfolding put_kept
trim_right drop [] = []
trim_right drop (c ∷ s) = put_kept drop c (trim_right drop s)

unfoldable pub trim_left : (ℕ → Bool) → Text → Text
trim_left drop [] = []
trim_left drop (c ∷ s) = let rest = trim_left drop s in if drop c then rest else c ∷ s

-- The longest beginning whose bytes pass the test
unfoldable pub take_while : (ℕ → Bool) → Text → Text
take_while test [] = []
take_while test (c ∷ s) = let rest = take_while test s in if test c then c ∷ rest else []

-- strings.Split at one byte; a text has at least one part
put_first : ℕ → List Text → List Text
put_first c [] = (c ∷ []) ∷ []
put_first c (p ∷ ps) = (c ∷ p) ∷ ps

unfoldable pub split_at : ℕ → Text → List Text
unfolding put_first
split_at c [] = [] ∷ []
split_at c (d ∷ s) = let rest = split_at c s in if nat_beq c d then [] ∷ rest else put_first d rest

-- strings.ReplaceAll of a text that is not empty. The number counts the bytes of an occurrence that are
-- still to be passed over.
replace_from : Text → Text → ℕ → Text → Text
replace_from old new skipped [] = []
replace_from old new (suc skipped) (c ∷ s) = replace_from old new skipped s
replace_from old new zero (c ∷ s) =
    let kept = replace_from old new 0 s in
    let replaced = replace_from old new (length old - 1) s in
    elim (cut_prefix old (c ∷ s)) [ none ↦ c ∷ kept | some rest ↦ new ++ replaced ]

unfoldable pub replace_all : Text → Text → Text → Text
unfolding replace_from
replace_all old new s = replace_from old new 0 s

-- The number of decimal digits, most significant first
unfoldable pub value_from : ℕ → Text → ℕ
value_from acc [] = acc
value_from acc (c ∷ s) = value_from (acc * 10 + (c - b'0')) s

abbrev pub max_int : ℕ
max_int = 9223372036854775807

-- strconv.Atoi of digits, which stops at the largest number
unfoldable pub atoi : Text → ℕ
unfolding value_from
atoi s = min (value_from 0 s) max_int

-- strconv.Itoa, whose fuel is more than the digits
unfoldable pub digits_onto : ℕ → ℕ → Text → Text
digits_onto zero n out = out
digits_onto (suc f) n out =
    let rest = digits_onto f (n / 10) ((n % 10 + b'0') ∷ out) in
    if ltb n 10 then (n + b'0') ∷ out else rest

unfoldable pub itoa : ℕ → Text
unfolding digits_onto
itoa n = digits_onto (suc n) n []
