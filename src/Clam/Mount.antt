-- ===== src/Clam/Mount.antt =====
-- internal/clamav/mount.go without its log lines: the images among the targets of a scan are mounted or
-- unpacked, and cleaned up after it. The text functions and `path.Join` are parameters.
pub mod Cleanup
pub mod Leftovers
use Prim.Native.String
use clamav_webui.Prelude.{
  ℕ, suc, String, Bool, true, false, not, ◌||◌, Option, none, some, List, [], ◌∷◌, ◌==◌, string_eq,
  any, if◌then◌else◌,
}
use clamav_webui.Clam.System.{
  Trace, System, ask, look_path, mount, umount, umount_lazily, unpack, make_dir, remove, remove_all,
}

-- strings.ToLower, TrimSpace, HasPrefix and HasSuffix (the text first), and path.Join with a number
pub record Texts : Type 0 where
  pub lower : String → String
  pub trim : String → String
  pub has_prefix : String → String → Bool
  pub has_suffix : String → String → Bool
  pub numbered : String → ℕ → String

pub record MountConfig : Type 0 where
  pub enabled : Bool
  pub extensions : List String
  pub extract_dir : String

dotted : Texts → String → String
dotted lib e = if lib.has_prefix e "." then e else String.◌++◌ "." e

normalized_in : Texts → List String → List String
normalized_in lib [] = []
normalized_in lib (e ∷ es) =
    let rest = normalized_in lib es in
    let e' = lib.lower (lib.trim e) in if e' == "" then rest else dotted lib e' ∷ rest

unfoldable pub normalized_exts : Texts → MountConfig → List String
unfolding normalized_in dotted
normalized_exts lib c = normalized_in lib c.extensions

unfoldable pub is_image : Texts → MountConfig → String → Bool
is_image lib c p = any (lib.has_suffix (lib.lower p)) (normalized_exts lib c)

pub record PreparedImage : Type 0 where
  pub image : String
  pub dir : String
  pub extracted : Bool

-- the filesystem types in turn, up to the first that mounts
mount_as : System → List String → String → String → Trace → Bool × Trace
mount_as system [] image dir t = (false, t)
mount_as system (fs ∷ rest) image dir t = elim (system t (mount fs image dir)) [
  | true ↦ (true, (mount fs image dir, true) ∷ t)
  | false ↦ mount_as system rest image dir ((mount fs image dir, false) ∷ t)
]

unfoldable pub mount_image : System → String → String → Trace → Bool × Trace
unfolding mount_as
mount_image system image dir t = mount_as system ("" ∷ "udf" ∷ "iso9660" ∷ []) image dir t

unpack_with : System → String → String → String → Trace → Bool × Trace
unpack_with system tool image dir t =
    let (made, t₁) = ask system (make_dir dir) t in
    if made then ask system (unpack tool image dir) t₁ else (false, t₁)

unfoldable pub extract_image : System → String → String → Trace → Bool × Trace
unfolding unpack_with
extract_image system image dir t =
    let (has_7zz, t₁) = ask system (look_path "7zz") t in
    let (has_7z, t₂) = ask system (look_path "7z") t₁ in
    let (has_bsdtar, t₃) = ask system (look_path "bsdtar") t₂ in
    if has_7zz
    then unpack_with system "7zz" image dir t₁
    else if has_7z
    then unpack_with system "7z" image dir t₂
    else if has_bsdtar
    then unpack_with system "bsdtar" image dir t₃
    else (false, t₃)

-- The unpacking of an image whose mount failed.
fall_back : System → String → String → Trace → Option PreparedImage × Trace
fall_back system image dir t =
    let (done, t₁) = extract_image system image dir t in
    if done
    then (some (record { image = image; dir = dir; extracted = true }), t₁)
    else (none, (ask system (remove_all dir) t₁).1)

-- One image: `mount_dir` and `extract_dir` are its numbered directories.
unfoldable pub prepare_image :
    System → String → String → String → Trace → Option PreparedImage × Trace
unfolding fall_back
prepare_image system image mount_dir extract_dir t =
    let (made, t₁) = ask system (make_dir mount_dir) t in
    let (mounted, t₂) = mount_image system image mount_dir t₁ in
    if not made
    then fall_back system image extract_dir (ask system (remove mount_dir) t₁).1
    else if mounted
    then (some (record { image = image; dir = mount_dir; extracted = false }), t₂)
    else fall_back system image extract_dir (ask system (remove mount_dir) t₂).1

-- What a run of the loop over the targets has made so far.
pub record Prepared : Type 0 where
  pub paths : List String
  pub images : List PreparedImage
  pub trace : Trace

add_target : String → Option PreparedImage → Prepared → Prepared
add_target p none rest = record rest { paths = p ∷ rest.paths }
add_target p (some pi) rest = record rest { paths = pi.dir ∷ rest.paths; images = pi ∷ rest.images }

-- The loop, from target number `i` on.
unfoldable pub prepare_from :
    System → Texts → MountConfig → String → String → ℕ → List String → Trace → Prepared
unfolding add_target
prepare_from system lib c mount_base extract_base i [] t = record {
  paths = [];
  images = [];
  trace = t;
}
prepare_from system lib c mount_base extract_base i (p ∷ ps) t =
    let (pi, t₁) =
      prepare_image system p (lib.numbered mount_base i) (lib.numbered extract_base i) t in
    let expanded = prepare_from system lib c mount_base extract_base (suc i) ps t₁ in
    let plain = prepare_from system lib c mount_base extract_base (suc i) ps t in
    if is_image lib c p then add_target p pi expanded else add_target p none plain

unfoldable pub prepare_images :
    System → Texts → MountConfig → String → String → List String → Trace → Prepared
prepare_images system lib c mount_base extract_base targets t =
    if c.enabled
    then prepare_from system lib c mount_base extract_base 0 targets t
    else record { paths = targets; images = []; trace = t }

unfoldable pub unmount : System → String → Trace → Trace
unmount system dir t =
    let (detached, t₁) = ask system (umount dir) t in
    let t₂ = if detached then t₁ else (ask system (umount_lazily dir) t₁).1 in
    (ask system (remove dir) t₂).1

discard : System → PreparedImage → Trace → Trace
discard system pi t =
    if pi.extracted then (ask system (remove_all pi.dir) t).1 else unmount system pi.dir t

discard_all : System → List PreparedImage → Trace → Trace
discard_all system [] t = t
discard_all system (pi ∷ pis) t = discard_all system pis (discard system pi t)

-- The function that `PrepareImages` returns, on the images that it prepared
unfoldable pub cleanup : System → MountConfig → String → String → List PreparedImage → Trace → Trace
unfolding discard_all discard
cleanup system c mount_base extract_base pis t =
    let t₁ = (ask system (remove_all mount_base) (discard_all system pis t)).1 in
    if not c.enabled
    then t
    else if extract_base == mount_base
    then t₁
    else (ask system (remove_all extract_base) t₁).1
