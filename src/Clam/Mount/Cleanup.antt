-- ===== src/Clam/Mount/Cleanup.antt =====
-- What is left of the images after a scan.
use clamav_webui.Prelude.{
  refl, String, ◌≡◌, Bool, true, false, not, ◌&&◌, ◌||◌, Option, none, some, [], ◌∷◌, ◌==◌,
  string_eq, arith, if◌then◌else◌,
}
use clamav_webui.Clam.System.{Trace, System, ask, mount, umount, make_dir, remove}
use clamav_webui.Clam.Mount.{
  suc, ℕ, any, MountConfig, unmount, Texts, Prepared, List, prepare_images, prepare_from,
  discard_all, discard, cleanup, add_target, PreparedImage, mount_image, extract_image, fall_back,
  prepare_image,
}

-- A mount of the directory succeeded, and no unmounting of it was tried since.
abbrev pub is_mounted : String → Trace → Bool
is_mounted d [] = false
is_mounted d ((mount fs image dir, true) ∷ t) = dir == d || is_mounted d t
is_mounted d ((umount dir, outcome) ∷ t) = if dir == d then false else is_mounted d t
is_mounted d (_ ∷ t) = is_mounted d t

abbrev mounts : String → PreparedImage → Bool
mounts d pi = not pi.extracted && pi.dir == d

abbrev mounts_some : String → Option PreparedImage → Bool
mounts_some d none = false
mounts_some d (some pi) = mounts d pi

module _ (system : System) (d : String) where
  mount_image-is_mounted :
      (image dir : String) (t : Trace)
      → let (mounted, u) = mount_image system image dir t in
        is_mounted d u ≡ ((mounted && dir == d) || is_mounted d t)
  unfolding mount_image
  mount_image-is_mounted image dir t = ground arith

  extract_image-is_mounted :
      (image dir : String) (t : Trace)
      → is_mounted d (extract_image system image dir t).1 ≡ is_mounted d t
  unfolding extract_image
  extract_image-is_mounted image dir t = ground arith

  fall_back-is_mounted :
      (image dir : String) (t : Trace)
      → let (pi, u) = fall_back system image dir t in
        is_mounted d u ≡ (mounts_some d pi || is_mounted d t)
  unfolding fall_back
  fall_back-is_mounted image dir t = ground (arith, extract_image-is_mounted image dir t)

  prepare_image-is_mounted :
      (image mount_dir extract_dir : String) (t : Trace)
      → let (pi, u) = prepare_image system image mount_dir extract_dir t in
        is_mounted d u ≡ (mounts_some d pi || is_mounted d t)
  unfolding prepare_image
  prepare_image-is_mounted image mount_dir extract_dir t =
      let t₁ = (ask system (make_dir mount_dir) t).1 in
      let t₂ = (mount_image system image mount_dir t₁).1 in
      ground (
        arith,
        mount_image-is_mounted image mount_dir t₁,
        fall_back-is_mounted image extract_dir (ask system (remove mount_dir) t₁).1,
        fall_back-is_mounted image extract_dir (ask system (remove mount_dir) t₂).1,
      )

  add_target-mounts :
      (p : String) (pi : Option PreparedImage) (rest : Prepared)
      → any (mounts d) (add_target p pi rest).images
        ≡ (mounts_some d pi || any (mounts d) rest.images)
  unfolding add_target
  add_target-mounts p none rest = refl
  add_target-mounts p (some pi) rest = refl

  add_target-trace :
      (p : String) (pi : Option PreparedImage) (rest : Prepared)
      → (add_target p pi rest).trace ≡ rest.trace
  unfolding add_target
  add_target-trace p none rest = refl
  add_target-trace p (some pi) rest = refl

  prepare_from-is_mounted :
      (lib : Texts) (c : MountConfig) (mount_base extract_base : String) (i : ℕ) (ps : List String)
      (t : Trace)
      → let r = prepare_from system lib c mount_base extract_base i ps t in
        is_mounted d r.trace ≡ (any (mounts d) r.images || is_mounted d t)
  unfolding prepare_from
  prepare_from-is_mounted lib c mount_base extract_base i [] t = refl
  prepare_from-is_mounted lib c mount_base extract_base i (p ∷ ps) t =
      let (pi, t₁) =
        prepare_image system p (lib.numbered mount_base i) (lib.numbered extract_base i) t in
      let expanded = prepare_from system lib c mount_base extract_base (suc i) ps t₁ in
      let plain = prepare_from system lib c mount_base extract_base (suc i) ps t in
      ground (
        arith,
        prepare_image-is_mounted p (lib.numbered mount_base i) (lib.numbered extract_base i) t,
        prepare_from-is_mounted lib c mount_base extract_base (suc i) ps t₁,
        prepare_from-is_mounted lib c mount_base extract_base (suc i) ps t,
        add_target-mounts p pi expanded,
        add_target-trace p pi expanded,
        add_target-mounts p none plain,
        add_target-trace p none plain,
      )

  discard-is_mounted :
      (pi : PreparedImage) (t : Trace)
      → is_mounted d (discard system pi t) ≡ (not (mounts d pi) && is_mounted d t)
  unfolding discard unmount
  discard-is_mounted pi t = ground arith

  discard_all-is_mounted :
      (pis : List PreparedImage) (t : Trace)
      → is_mounted d (discard_all system pis t) ≡ (not (any (mounts d) pis) && is_mounted d t)
  unfolding discard_all
  discard_all-is_mounted [] t = refl
  discard_all-is_mounted (pi ∷ pis) t =
      ground (arith, discard-is_mounted pi t, discard_all-is_mounted pis (discard system pi t))

  cleanup-is_mounted :
      (c : MountConfig) (mount_base extract_base : String) (pis : List PreparedImage) (t : Trace)
      → c.enabled ≡ true
      → is_mounted d (cleanup system c mount_base extract_base pis t)
        ≡ (not (any (mounts d) pis) && is_mounted d t)
  unfolding cleanup
  cleanup-is_mounted c mount_base extract_base pis t h =
      ground (arith, h, discard_all-is_mounted pis t)

  -- Whatever the targets are and whatever the system answers: after the images were prepared and cleaned up
  -- again, each directory on which a mount succeeded has had an attempt to unmount it since.
  pub cleanup_unmounts :
      (lib : Texts) (c : MountConfig) (mount_base extract_base : String) (targets : List String)
      → let r = prepare_images system lib c mount_base extract_base targets [] in
        is_mounted d (cleanup system c mount_base extract_base r.images r.trace) ≡ false
  unfolding prepare_images cleanup
  cleanup_unmounts lib c mount_base extract_base targets =
      let r = prepare_from system lib c mount_base extract_base 0 targets [] in
      ground (
        arith,
        prepare_from-is_mounted lib c mount_base extract_base 0 targets [],
        discard_all-is_mounted r.images r.trace,
      )
