-- ===== src/Auth/Sessions/Liveness.antt =====
-- Which ids the session store accepts, told from the calls alone.
use clamav_webui.Prelude.{
  refl, ◌∙◌, inr, inl, Bool-cases, ◌++◌, ℕ, String, ◌≡◌, ◌≢◌, Bool, false, ◌&&◌, Option, none, some,
  List, [], ◌∷◌, arith, ltb, not, eq_iff, ◌==◌, string_eq, if◌then◌else◌,
}
use clamav_webui.Auth.Clock.{since}
use clamav_webui.Auth.Sessions.{
  SessionManager, SessionEntry, session_idle_timeout, new_session_manager, create, valid, destroy,
  destroy_all,
}

pub data Call : Type 0 where
  opened : Option String → ℕ → Call
  presented : String → ℕ → Call
  closed : String → Call
  cleared : Call

-- The store after some calls, the newest of them first.
unfoldable pub after : List Call → SessionManager
after [] = new_session_manager
after (opened drawn t ∷ past) = (create drawn t (after past)).0
after (presented id t ∷ past) = (valid id t (after past)).0
after (closed id ∷ past) = destroy id (after past)
after (cleared ∷ past) = destroy_all (after past)

abbrev fresh : ℕ → ℕ → Bool
fresh t u = not (ltb session_idle_timeout (since t u))

abbrev drawn_is : Option String → String → Bool
drawn_is none id = false
drawn_is (some j) id = j == id

-- A session is live from its opening while no two uses are further apart than the timeout, until
-- it is closed or all are cleared.
unfoldable pub is_live : String → ℕ → List Call → Bool
is_live id t [] = false
is_live id t (opened drawn u ∷ past) = if drawn_is drawn id then fresh t u else is_live id t past
is_live id t (presented j u ∷ past) =
    let before = is_live id u past in
    let other = is_live id t past in if j == id then before && fresh t u else other
is_live id t (closed j ∷ past) = if j == id then false else is_live id t past
is_live id t (cleared ∷ past) = false

abbrev entry_is_live : Option SessionEntry → ℕ → Bool
entry_is_live none t = false
entry_is_live (some e) t = fresh t e.last_seen

entry-is_live :
    (id : String) (t : ℕ) (past : List Call)
    → id ≢ ""
    → entry_is_live (after past id) t ≡ is_live id t past
unfolding after is_live create valid destroy destroy_all
entry-is_live id t [] h = ground arith
entry-is_live id t (opened drawn u ∷ past) h = ground (arith, entry-is_live id t past h)
entry-is_live id t (presented j u ∷ past) h =
    ground (arith, entry-is_live id t past h, entry-is_live id u past h, eq_iff j id, eq_iff j "")
entry-is_live id t (closed j ∷ past) h = ground (arith, entry-is_live id t past h)
entry-is_live id t (cleared ∷ past) h = ground arith

-- `Valid` accepts an id that is not empty exactly where its session is live by the calls made so far: opened, neither
-- closed nor cleared since, and used often enough that no gap is longer than the idle timeout.
pub valid-eq-is_live :
    (id : String) (t : ℕ) (past : List Call)
    → id ≢ ""
    → (valid id t (after past)).1 ≡ is_live id t past
unfolding valid
valid-eq-is_live id t past h = ground (arith, entry-is_live id t past h, eq_iff id "")

-- None of the calls opens the id.
abbrev pub NotOpened : String → List Call → Type 0
NotOpened id [] = Unit
NotOpened id (opened drawn t ∷ calls) = (drawn ≢ some id) × NotOpened id calls
NotOpened id (_ ∷ calls) = NotOpened id calls

is_live_cleared :
    (id : String) (t : ℕ) (recent past : List Call)
    → NotOpened id recent
    → is_live id t (recent ++ cleared ∷ past) ≡ false
unfolding is_live
is_live_cleared id t [] past h = refl
is_live_cleared id t (opened none u ∷ recent) past h = is_live_cleared id t recent past h.1
is_live_cleared id t (opened (some j) u ∷ recent) past h =
    ground (arith, is_live_cleared id t recent past h.1, eq_iff j id)
is_live_cleared id t (presented j u ∷ recent) past h =
    ground (arith, is_live_cleared id t recent past h, is_live_cleared id u recent past h)
is_live_cleared id t (closed j ∷ recent) past h = ground (arith, is_live_cleared id t recent past h)
is_live_cleared id t (cleared ∷ recent) past h = refl

-- After `DestroyAll` no id is accepted, whatever calls follow, unless they open that id again.
pub valid-after_cleared :
    (id : String) (t : ℕ) (recent past : List Call)
    → NotOpened id recent
    → (valid id t (after (recent ++ cleared ∷ past))).1 ≡ false
valid-after_cleared id t recent past h = elim (Bool-cases (id == "")) [
  | inl blank ↦ unfold valid in ground arith
  | inr given ↦
      valid-eq-is_live id t (recent ++ cleared ∷ past) (λ e. ground (arith, eq_iff id ""))
      ∙ is_live_cleared id t recent past h
]
