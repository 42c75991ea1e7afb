-- ===== src/Monitor/Detection/Outcome.antt =====
-- What a detection leaves.
use clamav_webui.Prelude.{
  ℕ, String, ◌≡◌, ◌≢◌, ◌⊎◌, sym, inl, inr, Bool, true, false, none, some, [], ◌∷◌, ◌++◌, refl, ℕ,
  String, Text, Option, arith, Bool-cases,
}
use clamav_webui.Db.Quarantine.{add_quarantine}
use clamav_webui.Quarantine.Files.{Trace, is_gone}
use clamav_webui.Quarantine.Store.{Facts}
use clamav_webui.Quarantine.Store.Safety.{hold_outcome}
use clamav_webui.Quarantine.Items.{Env, check_target_path}
use clamav_webui.Prelude.Bytes.{is_space}
use clamav_webui.Prelude.Bytes.Laws.{last}
use clamav_webui.Clam.Journal.Colons.{
  HasNoSlash, HasNoColon, journal_line, parse_on_access_found-colon,
}
use clamav_webui.Monitor.Detection.{
  Text, Option, Watch, keep_item, after_hold, try_quarantine, on_access_detection, on_journal_line,
  detect_found,
}

-- One alert is added, which says whether the file is in the quarantine. If so, the file was taken from
-- its path, and its row is the one that was added; if not, no row is.
abbrev pub Reported : String → String → String → Facts → String → Watch → Watch × Trace → Type 0
Reported path p sig facts name w (w', t) =
    ((w'.alerts ≡ w.alerts ++ record { path = path; signature = sig; quarantined = true } ∷ [])
      × (w'.shelf.items ≡ (add_quarantine name p sig facts.sha256 none facts.mode w.shelf.items).0)
      × (is_gone p t ≡ true))
    ⊎ ((w'.alerts ≡ w.alerts ++ record { path = path; signature = sig; quarantined = false } ∷ [])
        × (w'.shelf ≡ w.shelf))

-- Whatever the system answers, where a name can be drawn and is not the path: a detection raises exactly one alert; it
-- says that the file is in the quarantine exactly if a row of it was added, and then the file was
-- taken from its path.
pub on_access_detection-Reported :
    (env : Env) (inserted : Bool) (facts : Facts) (name path p sig : String) (w : Watch)
    → env.abs path ≡ some p
    → env.join name ≢ p
    → Reported path p sig facts name w
        (on_access_detection env inserted facts (some name) path sig w)
unfolding on_access_detection try_quarantine after_hold keep_item
on_access_detection-Reported env inserted facts name path p sig w absolute n =
    let held = hold_outcome env.host env.join p sig 0 facts name (λ e. n (sym e)) in
    elim (Bool-cases (check_target_path env path)) [
      | inr refused ↦ ground (arith, refused)
      | inl fit ↦ ground (arith, fit, absolute, held)
    ]

module _ (env : Env) (inserted : Bool) (facts : Facts) (drawn : Option String) (w : Watch)
    (name : Text → String) (trim : Text → Text) (pre a : Text) (c : ℕ) (d : Text) (e : ℕ)
    (sig : Text) (plain : HasNoSlash pre) (ha : HasNoColon a) (n : last b':' a ≢ b'/')
    (hc : is_space c ≡ false) (hd : HasNoColon d) (he : is_space e ≡ false)
    (trimmed : trim (b'/' ∷ c ∷ d) ≡ b'/' ∷ c ∷ d) (trimmed_sig : trim (e ∷ sig) ≡ e ∷ sig) where
  -- A file below a directory whose name ends in a colon, reported in a line of the journal: the detection is that of
  -- another file. Of `a:/c…`, where `a` has no colon and does not end in "/", the file `/c…` is
  -- quarantined in its place. No "/" stands before the path, `c…` has no colon behind its first
  -- byte, no space begins it or the signature, and trimming changes neither of them nor the line.
  pub on_journal_line-colon :
      let line = journal_line pre (a ++ b':' ∷ b'/' ∷ c ∷ d) e sig in
      trim line ≡ line
      → on_journal_line trim name env inserted facts drawn line w
        ≡ on_access_detection env inserted facts drawn (name (b'/' ∷ c ∷ d)) (name (e ∷ sig)) w
  unfolding on_journal_line detect_found
  on_journal_line-colon whole =
      rw
        (parse_on_access_found-colon trim pre c d e sig plain hc hd he trimmed trimmed_sig a ha n
          whole)
        refl
