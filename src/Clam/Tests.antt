-- ===== src/Clam/Tests.antt =====
-- Runs of the image mounts, of the services and of the writing of settings.
use Prim.Native.String
use clamav_webui.Prelude.{
  any, ◌&&◌, some, List, String, ◌≢◌, arith, eq_iff, none, some, if◌then◌else◌, ◌≡◌, refl, true,
  false, ◌==◌, string_eq, [], ◌∷◌,
}
use clamav_webui.Clam.System.{System, mount, umount}
use clamav_webui.Clam.Mount.{
  Texts, MountConfig, prepare_images, prepare_from, prepare_image, mount_image, is_image,
  normalized_exts,
}
use clamav_webui.Clam.Mount.Leftovers.{is_leftover}
use clamav_webui.Clam.Mount.Cleanup.{is_mounted}
use clamav_webui.Clam.Conf.{ConfLib, new_lines, rewrite, append_missing}
use clamav_webui.Clam.Conf.Reading.{read_values, values_in, entry_of}
use clamav_webui.Clam.Conf.Roundtrip.{read_values-new_lines}
use clamav_webui.Clam.Services.{update_signatures}
use clamav_webui.Clam.Services.Guarded.{last_started, was_stopped, update_signatures_restarts}

-- A system on which only the automatic filesystem type and the first unmounting fail.
abbrev picky : System
picky t (mount fs image dir) = fs == "udf"
picky t (umount dir) = false
picky t c = true

abbrev lib : Texts
lib = record {
  lower = λ s. s;
  trim = λ s. s;
  has_prefix = λ s p. true;
  has_suffix = λ s p. s == "a.iso";
  numbered = λ base n. String.◌++◌ base "/0";
}

abbrev config : MountConfig
config = record { enabled = true; extensions = ".iso" ∷ []; extract_dir = "" }

mounted_between :
    is_mounted "/m/0" (prepare_images picky lib config "/m" "/x" ("/home" ∷ "a.iso" ∷ []) []).trace
    ≡ true
unfolding prepare_images prepare_from prepare_image mount_image is_image normalized_exts
mounted_between = refl

-- Of the two mounts one is below the directory of the scans.
abbrev table : List (List String)
table = ("/dev/sda1" ∷ "/" ∷ "ext4" ∷ []) ∷ ("/dev/loop0" ∷ "/m/0" ∷ "udf" ∷ []) ∷ []

abbrev below_m : Texts
below_m = record lib { has_prefix = λ s p. s == "/m/0" && p == "/m/" }

one_leftover : any (is_leftover below_m (λ s. s) ("/m" ∷ []) "/m/0") table ≡ true
one_leftover = refl

update_signatures_restarts_example :
    let t = (update_signatures picky []).1 in
    was_stopped "clamav-freshclam" t ≡ last_started "clamav-freshclam" t
update_signatures_restarts_example = update_signatures_restarts picky

-- A text without spaces around it; only "#" is a comment; a key is told from the whole line.
abbrev conf_lib : ConfLib
conf_lib = record {
  lines = λ s. s ∷ [];
  body = λ xs. elim xs [ [] ↦ "" | x ∷ rest ↦ x ];
  strip = λ s. s;
  trim = λ s. s;
  first_field =
      λ s. if s == "LogTime yes" then "LogTime" else if s == "LogTime no" then "LogTime" else s;
  other_fields =
      λ s. if s == "LogTime yes" then some "yes" else if s == "LogTime no" then some "no" else none;
  is_comment = λ s. s == "#";
  is_absolute = λ s. true;
  is_int = λ s. true;
  is_size = λ s. true;
  is_true = λ s. s == "yes";
}

log_time_off :
    new_lines conf_lib (("LogTime", "no" ∷ []) ∷ []) ("#" ∷ "LogTime yes" ∷ "" ∷ "LogTime yes" ∷ [])
    ≡ "#" ∷ "LogTime no" ∷ "" ∷ []
unfolding new_lines rewrite append_missing
log_time_off = refl

log_time_named : ◌≢◌ {A = String} "LogTime" ""
log_time_named e = ground (arith, eq_iff "LogTime" "")

both_read :
    read_values conf_lib "LogTime" ("#" ∷ "LogTime yes" ∷ "" ∷ "LogTime no" ∷ [])
    ≡ "yes" ∷ "no" ∷ []
unfolding read_values values_in entry_of
both_read = refl

read_values-new_lines_example :
    read_values conf_lib "LogTime"
      (new_lines conf_lib (("LogTime", "no" ∷ []) ∷ []) ("#" ∷ "LogTime yes" ∷ []))
    ≡ "no" ∷ []
read_values-new_lines_example =
    read_values-new_lines conf_lib "LogTime" (("LogTime", "no" ∷ []) ∷ [])
      ("#" ∷ "LogTime yes" ∷ []) log_time_named (λ s. refl) (((refl, refl, refl), tt), tt)
      (refl, tt)
