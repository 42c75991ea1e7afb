-- ===== src/Clam/Mount/Leftovers.antt =====
-- `UnmountLeftovers` of internal/clamav/mount.go: the mounts of a process that died are undone at the
-- next start. The table of mounts comes as the fields of its lines, `none` where it cannot be read.
use clamav_webui.Prelude.{
  String, ◌≡◌, refl, Bool, false, ◌&&◌, ◌||◌, Option, none, some, List, [], ◌∷◌, any, ◌==◌,
  string_eq, arith, if◌then◌else◌, ◌∙◌,
}
use Prim.Native.String
use clamav_webui.Clam.System.{Trace, System, ask, umount, remove_all}
use clamav_webui.Clam.Mount.{Texts, unmount}

-- Whether a mount point is below a directory; `bare` is strings.TrimRight of "/".
abbrev pub is_below : Texts → (String → String) → String → String → Bool
is_below lib bare mp base = lib.has_prefix mp (String.◌++◌ (bare base) "/")

abbrev mount_point : List String → Option String
mount_point [] = none
mount_point (dev ∷ []) = none
mount_point (dev ∷ mp ∷ rest) = some mp

-- The loop over the directories, for one mount point
unfoldable pub unmount_below :
    System → Texts → (String → String) → List String → String → Trace → Trace
unmount_below system lib bare [] mp t = t
unmount_below system lib bare (base ∷ bases) mp t =
    unmount_below system lib bare bases mp
      (if is_below lib bare mp base then unmount system mp t else t)

unmount_line : System → Texts → (String → String) → List String → Option String → Trace → Trace
unmount_line system lib bare bases none t = t
unmount_line system lib bare bases (some mp) t = unmount_below system lib bare bases mp t

unfoldable pub unmount_lines :
    System → Texts → (String → String) → List String → List (List String) → Trace → Trace
unfolding unmount_line
unmount_lines system lib bare bases [] t = t
unmount_lines system lib bare bases (fields ∷ lines) t =
    unmount_lines system lib bare bases lines
      (unmount_line system lib bare bases (mount_point fields) t)

unfoldable pub remove_bases : System → List String → Trace → Trace
remove_bases system [] t = t
remove_bases system (base ∷ bases) t =
    remove_bases system bases (if base == "" then t else (ask system (remove_all base) t).1)

unfoldable pub unmount_leftovers :
    System → Texts → (String → String) → List String → Option (List (List String)) → Trace → Trace
unmount_leftovers system lib bare bases none t = remove_bases system bases t
unmount_leftovers system lib bare bases (some lines) t =
    remove_bases system bases (unmount_lines system lib bare bases lines t)

-- Whether a line of the table names a mount point below one of the directories
abbrev pub is_leftover : Texts → (String → String) → List String → String → List String → Bool
is_leftover lib bare bases d fields = elim (mount_point fields) [
  | none ↦ false
  | some mp ↦ mp == d && any (is_below lib bare mp) bases
]

-- Whether the unmounting of a directory was tried
abbrev pub asked_umount : String → Trace → Bool
asked_umount d [] = false
asked_umount d ((umount dir, outcome) ∷ t) = dir == d || asked_umount d t
asked_umount d (_ ∷ t) = asked_umount d t

or_false : (b : Bool) → (b || false) ≡ b
or_false b = ground arith

module _ (system : System) (lib : Texts) (bare : String → String) (d : String) where
  asked-unmount :
      (mp : String) (t : Trace)
      → asked_umount d (unmount system mp t) ≡ (mp == d || asked_umount d t)
  unfolding unmount
  asked-unmount mp t = ground arith

  asked-unmount_below :
      (bases : List String) (mp : String) (t : Trace)
      → asked_umount d (unmount_below system lib bare bases mp t)
        ≡ ((mp == d && any (is_below lib bare mp) bases) || asked_umount d t)
  unfolding unmount_below
  asked-unmount_below [] mp t = ground arith
  asked-unmount_below (base ∷ bases) mp t = ground (
    arith,
    asked-unmount mp t,
    asked-unmount_below bases mp t,
    asked-unmount_below bases mp (unmount system mp t),
  )

  asked-unmount_lines :
      (bases : List String) (lines : List (List String)) (t : Trace)
      → asked_umount d (unmount_lines system lib bare bases lines t)
        ≡ (any (is_leftover lib bare bases d) lines || asked_umount d t)
  unfolding unmount_lines unmount_line
  asked-unmount_lines bases [] t = refl
  asked-unmount_lines bases ([] ∷ lines) t = asked-unmount_lines bases lines t
  asked-unmount_lines bases ((dev ∷ []) ∷ lines) t = asked-unmount_lines bases lines t
  asked-unmount_lines bases ((dev ∷ mp ∷ rest) ∷ lines) t = ground (
    arith,
    asked-unmount_lines bases lines (unmount_below system lib bare bases mp t),
    asked-unmount_below bases mp t,
  )

  asked-remove_bases :
      (bases : List String) (t : Trace)
      → asked_umount d (remove_bases system bases t) ≡ asked_umount d t
  unfolding remove_bases
  asked-remove_bases [] t = refl
  asked-remove_bases (base ∷ bases) t = ground (
    arith,
    asked-remove_bases bases t,
    asked-remove_bases bases (ask system (remove_all base) t).1,
  )

-- Whatever the system answers: at a start, the unmounting of a directory is tried exactly if the table of mounts can be
-- read and shows it as a mount point below one of the directories that the program uses.
unmount_leftovers-asked :
    (system : System) (lib : Texts) (bare : String → String) (bases : List String)
    (table : List (List String)) (d : String)
    → (asked_umount d (unmount_leftovers system lib bare bases (some table) [])
        ≡ any (is_leftover lib bare bases d) table)
      × (asked_umount d (unmount_leftovers system lib bare bases none []) ≡ false)
unfolding unmount_leftovers
unmount_leftovers-asked system lib bare bases table d = (
  asked-remove_bases system lib bare d bases (unmount_lines system lib bare bases table [])
      ∙ asked-unmount_lines system lib bare d bases table []
      ∙ or_false (any (is_leftover lib bare bases d) table),
  asked-remove_bases system lib bare d bases [],
)
