-- ===== src/Clam/OnAccess/Rollback.antt =====
-- The settings of clamd behind a change of on-access scanning.
use clamav_webui.Prelude.{
  String, ◌≡◌, ◌⊎◌, refl, ap, ◌∙◌, inl, inr, Bool, true, false, Option, none, some, [], ◌∷◌,
  if◌then◌else◌, Bool-cases, arith, ◌==◌, string_eq,
}
use clamav_webui.Clam.System.{Trace, System, ask, systemctl, look_path}
use clamav_webui.Clam.Services.{service_action, ServiceError, action_failed}
use clamav_webui.Clam.Conf.{
  ConfLib, ConfKeys, Updates, ConfFile, ConfError, write_conf, new_lines, clean_all, accepted,
}
use clamav_webui.Clam.Conf.Writes.{Ends, write_conf-Ends}
use clamav_webui.Clam.OnAccess.{
  OnAccessConfig, Answers, ClamState, apply_on_access, updates_for, not_installed, disable,
  start_clamonacc, restart_daemon, written, enable, restore_conf_backup, take_backup,
}

-- The last call of systemctl on a unit, with its outcome
abbrev pub last_call : String → Trace → Option (String × Bool)
last_call unit [] = none
last_call unit ((systemctl verb u, done) ∷ t) =
    let rest = last_call unit t in if u == unit then some (verb, done) else rest
last_call unit (_ ∷ t) = last_call unit t

-- The text is the old one; or they are those of the accepted updates, and the last call on the daemon was a restart
-- that succeeded.
abbrev pub IsSettled : ConfLib → ConfKeys → OnAccessConfig → String → ClamState → Type 0
IsSettled lib keys cfg old s =
    (s.clamd.current ≡ old)
    ⊎ ((rows : Updates) × (clean_all lib keys (updates_for cfg) ≡ accepted rows)
        × (s.clamd.current ≡ lib.body (new_lines lib rows (lib.lines old)))
        × (last_call "clamav-daemon" s.trace ≡ some ("restart", true)))

-- An action on the daemon, and one on the scanner, as calls
act_daemon-restart :
    (system : System) (t : Trace)
    → let (failure, t') = service_action system "clamav-daemon" "restart" t in
      ((failure ≡ none) × (last_call "clamav-daemon" t' ≡ some ("restart", true)))
      ⊎ ((e : ServiceError) × (failure ≡ some e))
unfolding service_action
act_daemon-restart system t = elim (Bool-cases (system t (systemctl "restart" "clamav-daemon"))) [
  | inl done ↦ inl (rw done refl, rw done refl)
  | inr failed ↦ inr (action_failed, rw failed refl)
]

start_clamonacc-keeps :
    (system : System) (s : ClamState)
    → let s' = (start_clamonacc system s).0 in
      (s'.clamd ≡ s.clamd)
      × (last_call "clamav-daemon" s'.trace ≡ last_call "clamav-daemon" s.trace)
unfolding start_clamonacc service_action
start_clamonacc-keeps system s = (ground arith, ground arith)

module _ (lib : ConfLib) (keys : ConfKeys) (cfg : OnAccessConfig) (old : String) where
  -- The settings were just written, and the backup has the old ones.
  restart_daemon-IsSettled :
      (system : System) (a : Answers) (s : ClamState) (rows : Updates)
      → a.restored ≡ true
      → clean_all lib keys (updates_for cfg) ≡ accepted rows
      → s.clamd.current ≡ lib.body (new_lines lib rows (lib.lines old))
      → s.clamd.backup ≡ some old
      → IsSettled lib keys cfg old (restart_daemon system a s).0
  unfolding restart_daemon restore_conf_backup take_backup
  restart_daemon-IsSettled system a s rows moves accept current backup =
      let enabled = service_action system "clamav-daemon" "enable" s.trace in
      let (failure, t) = service_action system "clamav-daemon" "restart" enabled.1 in
      elim (act_daemon-restart system enabled.1) [
        | inl (fine, restarted) ↦
            let kept = start_clamonacc-keeps system (record s { trace = t }) in
            inr (
              rows,
              accept,
              rw (fine, restart_daemon) (ap (λ (f : ConfFile). f.current) kept.0 ∙ current),
              rw (fine, restart_daemon) (kept.1 ∙ restarted),
            )
        | inr (e, failed) ↦ inl (rw (failed, restart_daemon) (rw moves (rw backup refl)))
      ]

  written-IsSettled :
      (system : System) (a : Answers) (f : ConfFile) (out : ConfFile × Option ConfError) (t : Trace)
      → a.restored ≡ true
      → f.current ≡ old
      → Ends lib (clean_all lib keys (updates_for cfg)) f out
      → IsSettled lib keys cfg old (written system a out t).0
  unfolding written
  written-IsSettled system a f (g, failure) t moves is_old (inl (e, failed, kept)) =
      inl (rw failed (kept ∙ is_old))
  written-IsSettled system a f (g, failure) t moves is_old
        (inr (rows, fine, accept, current, backup)) =
      rw fine (
        restart_daemon-IsSettled system a (record { clamd = g; trace = t }) rows moves accept
          (rw is_old at current) (rw is_old at backup))

enable-IsSettled :
    (lib : ConfLib) (keys : ConfKeys) (cfg : OnAccessConfig) (system : System) (a : Answers)
    (daemon : Option Bool) (s : ClamState)
    → a.restored ≡ true
    → IsSettled lib keys cfg s.clamd.current (enable lib keys system a daemon cfg s).0
unfolding enable
enable-IsSettled lib keys cfg system a none s moves = inl refl
enable-IsSettled lib keys cfg system a (some false) s moves = inl refl
enable-IsSettled lib keys cfg system a (some true) s moves =
    written-IsSettled lib keys cfg s.clamd.current system a s.clamd
      (write_conf lib keys a.readable a.backed_up a.replaced (updates_for cfg) s.clamd) s.trace
      moves refl
      (write_conf-Ends lib keys a.readable a.backed_up a.replaced (updates_for cfg) s.clamd)

disable-keeps :
    (system : System) (s : ClamState) → (disable system s).0.clamd.current ≡ s.clamd.current
unfolding disable
disable-keeps system s = refl

-- The three ways of a change
apply_on_access-cases :
    (lib : ConfLib) (keys : ConfKeys) (system : System) (a : Answers) (cfg : OnAccessConfig)
    (s : ClamState)
    → let s' = record s { trace = (ask system (look_path "clamonacc") s.trace).1 } in
      let out = apply_on_access lib keys system a cfg s in
      (out ≡ (s', some not_installed))
      ⊎ (out ≡ disable system s')
      ⊎ (out ≡ enable lib keys system a a.daemon cfg s')
unfolding apply_on_access
apply_on_access-cases lib keys system a cfg s =
    let found = (ask system (look_path "clamonacc") s.trace).0 in
    elim (Bool-cases found) [
      | inr missing ↦ inl (ground (arith, missing))
      | inl there ↦ elim (Bool-cases cfg.enabled) [
        | inr off ↦ inr (inl (ground (arith, there, off)))
        | inl on ↦ inr (inr (ground (arith, there, on)))
      ]
    ]

-- Where the backup of the settings can be moved back, whatever else fails: behind a change of on-access scanning clamd
-- has the settings that it had before; or it has those of the request, which were all accepted, and
-- the last thing that was asked for its service was a restart, which succeeded.
pub apply_on_access-IsSettled :
    (lib : ConfLib) (keys : ConfKeys) (system : System) (a : Answers) (cfg : OnAccessConfig)
    (s : ClamState)
    → a.restored ≡ true
    → IsSettled lib keys cfg s.clamd.current (apply_on_access lib keys system a cfg s).0
apply_on_access-IsSettled lib keys system a cfg s moves =
    let s' = record s { trace = (ask system (look_path "clamonacc") s.trace).1 } in
    elim (apply_on_access-cases lib keys system a cfg s) [
      | inl missing ↦ rw missing (inl refl)
      | inr (inl off) ↦ rw off (inl (disable-keeps system s'))
      | inr (inr on) ↦ rw on (enable-IsSettled lib keys cfg system a a.daemon s' moves)
    ]
