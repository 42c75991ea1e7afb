-- ===== src/Clam/Conf/Writes.antt =====
-- What a write of the settings leaves where it fails.
use clamav_webui.Prelude.{
  refl, inl, inr, ◌≡◌, ◌⊎◌, Bool, true, false, Option, none, some, string_eq,
}
use clamav_webui.Clam.Conf.{
  write_cleaned, replace_text, not_readable, write_failed, ConfLib, ConfKeys, Updates, ConfFile,
  ConfError, Cleaned, refused, accepted, clean_all, new_lines, write_conf,
}

-- The two ways in which a write ends.
abbrev pub Ends : ConfLib → Cleaned → ConfFile → ConfFile × Option ConfError → Type 0
Ends lib c f (g, failure) =
    ((e : ConfError) × (failure ≡ some e) × (g.current ≡ f.current))
    ⊎ ((rows : Updates) × (failure ≡ none)
        × (c ≡ accepted rows)
        × (g.current ≡ lib.body (new_lines lib rows (lib.lines f.current)))
        × (g.backup ≡ some f.current))

write_cleaned-Ends :
    (lib : ConfLib) (readable backed_up replaced : Bool) (c : Cleaned) (f : ConfFile)
    → Ends lib c f (write_cleaned lib readable backed_up replaced c f)
unfolding write_cleaned replace_text
write_cleaned-Ends lib readable backed_up replaced (refused e) f = inl (e, refl, refl)
write_cleaned-Ends lib false backed_up replaced (accepted rows) f = inl (not_readable, refl, refl)
write_cleaned-Ends lib true false replaced (accepted rows) f = inl (write_failed, refl, refl)
write_cleaned-Ends lib true true false (accepted rows) f = inl (write_failed, refl, refl)
write_cleaned-Ends lib true true true (accepted rows) f = inr (rows, refl, refl, refl, refl)

-- A write of the settings ends in one of two ways: it fails and the file has the text that it had; or it
-- succeeds, the updates were all accepted, the file has the new lines and the backup the old text.
pub write_conf-Ends :
    (lib : ConfLib) (keys : ConfKeys) (readable backed_up replaced : Bool) (updates : Updates)
    (f : ConfFile)
    → Ends lib
        (clean_all lib keys updates)
        f
        (write_conf lib keys readable backed_up replaced updates f)
unfolding write_conf
write_conf-Ends lib keys readable backed_up replaced updates f =
    write_cleaned-Ends lib readable backed_up replaced (clean_all lib keys updates) f
