-- ===== src/Quarantine/Files.antt =====
-- The calls of internal/quarantine/store.go to the operating system, and `moveFile`.
use clamav_webui.Prelude.{
  ℕ, String, ◌≡◌, ◌≢◌, Bool, true, false, not, ◌&&◌, ◌||◌, List, [], ◌∷◌, ◌==◌, string_eq,
  if◌then◌else◌, arith, eq_iff,
}

-- Each call succeeds or not; the two questions are calls that succeed where the answer is yes.
pub data Call : Type 0 where
  lstat open_file fstat hash stat open_for_writing overwrite : String → Call
  is_regular is_same_regular is_dir : String → Call
  rename : String → String → Call
  create close remove write_file : String → Call
  copy : String → String → Call
  chmod : String → ℕ → Call

-- The calls so far with their outcomes, the latest first.
abbrev pub Trace : Type 0
Trace = List (Call × Bool)

abbrev pub Host : Type 0
Host = Trace → Call → Bool

abbrev pub ask : Host → Call → Trace → Bool × Trace
ask host c t = (host t c, (c, host t c) ∷ t)

-- The copy behind a rename that failed.
copy_over : Host → String → String → Trace → Bool × Trace
copy_over host src dst t =
    let (opened, t₁) = ask host (open_file src) t in
    let (created, t₂) = ask host (create dst) t₁ in
    let (copied, t₃) = ask host (copy src dst) t₂ in
    let (closed, t₄) = ask host (close dst) t₃ in
    let (removed, t₅) = ask host (remove src) t₄ in
    if not opened
    then (false, t₁)
    else if not created
    then (false, t₂)
    else if not copied
    then (false, (ask host (remove dst) (ask host (close dst) t₃).1).1)
    else if not closed
    then (false, (ask host (remove dst) t₄).1)
    else if removed
    then (true, t₅)
    else (false, (ask host (remove dst) t₅).1)

unfoldable pub move_file : Host → String → String → Trace → Bool × Trace
unfolding copy_over
move_file host src dst t =
    let (renamed, t₁) = ask host (rename src dst) t in
    if renamed then (true, t₁) else copy_over host src dst t₁

-- The file at a path was renamed or removed.
abbrev pub is_gone : String → Trace → Bool
is_gone path [] = false
is_gone path ((rename src dst, true) ∷ t) = src == path || is_gone path t
is_gone path ((remove src, true) ∷ t) = src == path || is_gone path t
is_gone path (_ ∷ t) = is_gone path t

-- A path was created, and no removal of it was tried since.
abbrev pub is_left : String → Trace → Bool
is_left path [] = false
is_left path ((create dst, true) ∷ t) = dst == path || is_left path t
is_left path ((remove dst, outcome) ∷ t) = if dst == path then false else is_left path t
is_left path (_ ∷ t) = is_left path t

-- The file at `src` was put at `dst`: by a rename, or by a copy behind which no removal of the target
-- was tried, and then a removal of the source.
abbrev pub is_copied : String → String → Trace → Bool
is_copied src dst [] = false
is_copied src dst ((copy s d, true) ∷ t) = s == src && d == dst || is_copied src dst t
is_copied src dst ((remove d, outcome) ∷ t) = if d == dst then false else is_copied src dst t
is_copied src dst (_ ∷ t) = is_copied src dst t

abbrev pub is_moved : String → String → Trace → Bool
is_moved src dst [] = false
is_moved src dst ((rename s d, true) ∷ t) = s == src && d == dst || is_moved src dst t
is_moved src dst ((remove s, true) ∷ t) = s == src && is_copied src dst t || is_moved src dst t
is_moved src dst (_ ∷ t) = is_moved src dst t

-- A move that reports success put the file at the target, or removed the source of a copy that
-- stands there.
pub move_file-is_moved :
    (host : Host) (src dst : String) (t : Trace)
    → (move_file host src dst t).0 ≡ true
    → is_moved src dst (move_file host src dst t).1 ≡ true
unfolding move_file
move_file-is_moved host src dst t e = ground (arith, e, eq_iff src src, eq_iff dst dst)

-- A move that reports success has taken the file away from its source; one that reports an error
-- has left it there, and has tried to remove what it created at the target.
pub move_file_outcome :
    (host : Host) (src dst : String) (t : Trace)
    → src ≢ dst
    → is_left dst t ≡ false
    → let (moved, u) = move_file host src dst t in
      ((moved ≡ true) → is_gone src u ≡ true)
      × ((moved ≡ false) → (is_gone src u ≡ is_gone src t) × (is_left dst u ≡ false))
unfolding move_file
move_file_outcome host src dst t n h = (
  ground (arith, eq_iff src src),
  λ e. (ground (arith, eq_iff dst src, n, e), ground (arith, eq_iff dst dst, eq_iff src dst, h, e)),
)
