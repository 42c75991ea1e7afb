-- ===== src/Scans/Targets/Confined.antt =====
-- What the accepted targets are.
use clamav_webui.Prelude.{
  Text, ◌≡◌, true, false, Option, none, some, List, [], ◌∷◌, text_eq, contains, All, if◌then◌else◌,
}
use clamav_webui.Scans.Targets.{
  PathLib, Target, refused, blank, target, is_within, sanitize_in, put_first,
}

abbrev pub IsDistinct : List Text → Type 0
IsDistinct [] = Unit
IsDistinct (p ∷ ps) = (contains ps p ≡ false) × IsDistinct ps

-- Each path is under the root and none of those seen before, and no path comes twice.
abbrev Accepted : Text → List Text → List Text → Type 0
Accepted root seen out =
    All (λ p. is_within root p ≡ true) out × All (λ p. contains seen p ≡ false) out × IsDistinct out

abbrev AcceptedIf : Text → List Text → Option (List Text) → Type 0
AcceptedIf root seen none = Unit
AcceptedIf root seen (some out) = Accepted root seen out

-- What the loop returns for a list, by the first target.
abbrev after_target : PathLib → Text → List Text → List Text → Target → Option (List Text)
after_target lib root seen ps refused = none
after_target lib root seen ps blank = sanitize_in lib root seen ps
after_target lib root seen ps (target c) =
    if contains seen c
    then sanitize_in lib root seen ps
    else put_first c (sanitize_in lib root (c ∷ seen) ps)
