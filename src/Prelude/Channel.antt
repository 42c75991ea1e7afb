-- ===== src/Prelude/Channel.antt =====
-- Buffered channels with a non-blocking send, as three parts of the program use them: the value is
-- dropped where the buffer is full. What arrives is a subsequence of what was sent.
use Prim.Native.Nat.{ℕ, ◌≤◌, ◌<◌}
use mathlib.Core.Path.{◌≡◌}
use mathlib.Core.Bool.{Bool, true, false}
use mathlib.Core.List.{List, [], ◌∷◌, ◌++◌, append_assoc, append-nil}
use native.Mathlib.Omega.{arith}
use clamav_webui.Prelude.Tests.{ltb, lt→ltb, Bool-cases, if◌then◌else◌}
use mathlib.Core.Logic.{inl, inr}
use clamav_webui.Prelude.Lists.{length, length-append}

-- Keeps some of the elements of a list, in their order.
pub data Subsequence {ℓ} {A : Type ℓ} : List A → List A → Type ℓ where
  nil : Subsequence [] []
  kept : {x : A} {xs ys : List A} → Subsequence xs ys → Subsequence (x ∷ xs) (x ∷ ys)
  dropped : {y : A} {xs ys : List A} → Subsequence xs ys → Subsequence xs (y ∷ ys)

module _ {ℓ} {A : Type ℓ} where
  pub Subsequence-append :
      {xs ys us vs : List A}
      → Subsequence xs ys
      → Subsequence us vs
      → Subsequence (xs ++ us) (ys ++ vs)
  Subsequence-append nil t = t
  Subsequence-append (kept s) t = kept (Subsequence-append s t)
  Subsequence-append (dropped s) t = dropped (Subsequence-append s t)

  pub Subsequence-refl : (xs : List A) → Subsequence xs xs
  Subsequence-refl [] = nil
  Subsequence-refl (x ∷ xs) = kept (Subsequence-refl xs)

  -- select { case ch <- x: default: }
  abbrev pub offer : ℕ → A → List A → List A × Bool
  offer cap x q = if ltb (length q) cap then (q ++ x ∷ [], true) else (q, false)

  pub length-offer :
      (cap : ℕ) (x : A) (q : List A) → length q ≤ cap → length (offer cap x q).0 ≤ cap
  length-offer cap x q h = ground (arith, length-append q (x ∷ []))

  -- With `got` already received, an offer keeps the arrivals in the order of the sends.
  pub Subsequence-offer :
      (cap : ℕ) (x : A) (got q sent : List A)
      → Subsequence (got ++ q) sent
      → Subsequence (got ++ (offer cap x q).0) (sent ++ x ∷ [])
  Subsequence-offer cap x got q sent s = elim (Bool-cases (ltb (length q) cap)) [
    | inl room ↦ rw room (rw (← append_assoc) (Subsequence-append s (kept nil)))
    | inr full ↦ rw full (rw (← append-nil (got ++ q)) (Subsequence-append s (dropped nil)))
  ]

  pub offer_room :
      (cap : ℕ) (x : A) (q : List A) → length q < cap → offer cap x q ≡ (q ++ x ∷ [], true)
  offer_room cap x q h = rw (lt→ltb _ _ h)
