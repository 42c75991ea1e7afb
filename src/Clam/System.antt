-- ===== src/Clam/System.antt =====
-- The commands and file operations that internal/clamav asks for, as calls that succeed or not.
use clamav_webui.Prelude.{String, Bool, List, ◌∷◌}

pub data Call : Type 0 where
  -- `systemctl` with a verb and a unit
  systemctl : String → String → Call
  -- whether the unit is there and active
  is_active : String → Call
  look_path : String → Call
  -- `mount` with a filesystem type, an image and a directory
  mount : String → String → String → Call
  umount umount_lazily : String → Call
  -- a tool that unpacks an image into a directory
  unpack : String → String → String → Call
  make_dir remove remove_all : String → Call
  run_freshclam : Call

-- The calls so far with their outcomes, the latest first.
abbrev pub Trace : Type 0
Trace = List (Call × Bool)

abbrev pub System : Type 0
System = Trace → Call → Bool

abbrev pub ask : System → Call → Trace → Bool × Trace
ask system c t = (system t c, (c, system t c) ∷ t)
