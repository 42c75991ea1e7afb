-- ===== src/Settings/Puts.antt =====
-- What a request to change a settings file leaves.
use clamav_webui.Prelude.{
  ◌↔◌, ◌∙◌, Option, String, ◌≡◌, ◌⊎◌, refl, Bool, true, false, none, some, [], ◌∷◌, ◌++◌, string_eq,
  arith, Option-cases, inl, inr, if◌then◌else◌,
}
use clamav_webui.Clam.System.{System, Trace}
use clamav_webui.Clam.Services.{service_action}
use clamav_webui.Clam.Conf.{
  write_conf, ConfError, ConfLib, ConfKeys, Updates, ConfFile, accepted, clean_all, new_lines,
}
use clamav_webui.Clam.Conf.Writes.{Ends, write_conf-Ends}
use clamav_webui.Clam.Conf.Reading.{read_conf}
use clamav_webui.Settings.{
  reply_error, put_known, handle_put_config, after_write, ConfFiles, Reply, stored, Answers,
  ConfigUpdate, conf_keys_for, file_of, put_file, restarted,
}

abbrev pub is_stored : Reply → Bool
is_stored (stored v done) = true
is_stored _ = false

-- The two ways in which a request ends. It is refused, and all files have the texts that they had, and no service
-- was touched. Or it is stored: the file has the new lines, they are what the reply shows if they
-- can be read, and the unit was restarted and this published exactly if the reply says so.
-- Whether the unit was restarted: it was asked for, and the action reports no error.
abbrev pub Restarted : System → Bool → String → Trace → Trace → Bool → Type 0
Restarted system false unit before after done = (done ≡ false) × (after ≡ before)
Restarted system true unit before after done =
    (after ≡ (service_action system unit "restart" before).1)
    × ((done ≡ true) ↔ ((service_action system unit "restart" before).0 ≡ none))

abbrev pub Outcome :
    ConfLib → System → Answers → String → ConfigUpdate → ConfFiles → ConfFiles × Reply → Type 0
Outcome lib system a which req s (s', reply) =
    ((is_stored reply ≡ false)
      × (s'.clamd.current ≡ s.clamd.current)
      × (s'.freshclam.current ≡ s.freshclam.current)
      × (s'.trace ≡ s.trace)
      × (s'.published ≡ s.published))
    ⊎ ((keys : ConfKeys) × (unit : String) × (rows : Updates) × (done : Bool) × (conf_keys_for which
          ≡ some (keys, unit))
        × (clean_all lib keys req.updates ≡ accepted rows)
        × ((file_of which s').current
            ≡ lib.body (new_lines lib rows (lib.lines (file_of which s).current)))
        × (reply
            ≡ stored
                (read_conf lib keys
                  (if a.readable_after then some (lib.lines (file_of which s').current) else none))
                done)
        × (s'.published ≡ (if done then s.published ++ unit ∷ [] else s.published))
        × Restarted system req.restart unit s.trace s'.trace done)

Restarted-from :
    (system : System) (restart : Bool) (unit : String) (before before' after : Trace) (done : Bool)
    → before ≡ before'
    → Restarted system restart unit before after done
    → Restarted system restart unit before' after done
Restarted-from system restart unit before before' after done e h = rw (← e) h

file_of-put_file :
    (which : String) (f : ConfFile) (s : ConfFiles) → file_of which (put_file which f s) ≡ f
unfolding file_of put_file
file_of-put_file which f s = ground arith

restarted_keeps :
    (system : System) (restart : Bool) (unit which : String) (s : ConfFiles)
    → let (s', done) = restarted system restart unit s in
      (file_of which s' ≡ file_of which s)
      × (s'.published ≡ (if done then s.published ++ unit ∷ [] else s.published))
      × Restarted system restart unit s.trace s'.trace done
unfolding restarted file_of
restarted_keeps system false unit which s = (refl, refl, (refl, refl))
restarted_keeps system true unit which s =
    elim (Option-cases (service_action system unit "restart" s.trace).0) [
      | inl e ↦ (
        ground (arith, e),
        ground (arith, e),
        (ground (arith, e), ((λ d. e), (λ d. ground (arith, e)))),
      )
      | inr (err, e) ↦ (
        ground (arith, e),
        ground (arith, e),
        (ground (arith, e), ((λ d. ground (arith, e, d)), (λ d. ground (arith, e, d)))),
      )
    ]

put_file-kept :
    (which : String) (f : ConfFile) (s : ConfFiles)
    → f.current ≡ (file_of which s).current
    → let s' = put_file which f s in
      (s'.clamd.current ≡ s.clamd.current)
      × (s'.freshclam.current ≡ s.freshclam.current)
      × (s'.trace ≡ s.trace)
      × (s'.published ≡ s.published)
unfolding put_file file_of
put_file-kept which f s h = (ground (arith, h), ground (arith, h), ground arith, ground arith)

published-put_file :
    (which : String) (f : ConfFile) (s : ConfFiles) → (put_file which f s).published ≡ s.published
unfolding put_file
published-put_file which f s = ground arith

trace-put_file :
    (which : String) (f : ConfFile) (s : ConfFiles) → (put_file which f s).trace ≡ s.trace
unfolding put_file
trace-put_file which f s = ground arith

reply_error-is_stored : (e : ConfError) → is_stored (reply_error e) ≡ false
unfolding reply_error
reply_error-is_stored e = ground arith

after_write-Outcome :
    (lib : ConfLib) (system : System) (a : Answers) (keys : ConfKeys) (unit which : String)
    (req : ConfigUpdate) (s : ConfFiles) (out : ConfFile × Option ConfError)
    → conf_keys_for which ≡ some (keys, unit)
    → Ends lib (clean_all lib keys req.updates) (file_of which s) out
    → Outcome lib system a which req s (after_write lib system a keys unit which req.restart s out)
unfolding after_write
after_write-Outcome lib system a keys unit which req s (g, failure) known (inl (e, failed, kept)) =
    let same = put_file-kept which g s kept in
    rw failed (inl (reply_error-is_stored e, same.0, same.1, same.2, same.3))
after_write-Outcome lib system a keys unit which req s (g, failure) known
      (inr (rows, fine, accept, current, backup)) =
    let put = put_file which g s in
    let is_g = file_of-put_file which g s in
    let after = restarted_keeps system req.restart unit which put in
    let file = after.0 ∙ is_g in
    rw fine (
      inr (
        keys,
        unit,
        rows,
        (restarted system req.restart unit put).1,
        known,
        accept,
        rw file current,
        rw file refl,
        ground (arith, after.1, published-put_file which g s),
        Restarted-from system req.restart unit put.trace s.trace
            (restarted system req.restart unit put).0.trace
            (restarted system req.restart unit put).1 (trace-put_file which g s) after.2,
      ))

put_known-Outcome :
    (lib : ConfLib) (system : System) (a : Answers) (which : String) (req : ConfigUpdate)
    (s : ConfFiles) (known : Option (ConfKeys × String))
    → conf_keys_for which ≡ known
    → Outcome lib system a which req s (put_known lib system a which req s known)
unfolding put_known
put_known-Outcome lib system a which req s none e = inl (refl, refl, refl, refl, refl)
put_known-Outcome lib system a which req s (some (keys, unit)) e =
    after_write-Outcome lib system a keys unit which req s
      (write_conf lib keys a.readable a.backed_up a.replaced req.updates (file_of which s)) e
      (write_conf-Ends lib keys a.readable a.backed_up a.replaced req.updates (file_of which s))

-- A request to change a settings file is refused, and then all settings are as before and no service was touched; or
-- it is stored: the updates were all accepted, the file has the new lines, the reply shows them if
-- they can be read, and it says that the unit was restarted exactly if that is published, which is where the request asked
-- for it and the action succeeded.
pub handle_put_config-Outcome :
    (lib : ConfLib) (system : System) (a : Answers) (which : String) (req : ConfigUpdate)
    (s : ConfFiles)
    → Outcome lib system a which req s (handle_put_config lib system a which req s)
unfolding handle_put_config
handle_put_config-Outcome lib system a which req s =
    put_known-Outcome lib system a which req s (conf_keys_for which) refl
