-- ===== src/Policy/Mounts.antt =====
-- What `build_mount` of policy.rs accepts, and what it builds.
use toolcage.Prelude.{
  Text, text, text_eq, text_eq_iff, ◌≡◌, ◌≢◌, refl, ◌↔◌, true, false, List, [], ◌∷◌, All, any,
  split_on, ok, if◌then◌else◌, arith,
}
use toolcage.Policy.{RawMount, MountMode, read_only, read_write, Mount, mode_as_str}
use toolcage.Policy.Build.{build_mount, parse_mode, join_path, starts_with_slash}

abbrev HasNoDotdot : List Text → Type 0
HasNoDotdot segs = All (λ seg. seg ≢ text "..") segs

-- Below the root, absolute, and with no `..` between its slashes.
pub record IsGuestPath (p : Text) : Type 0 where
  pub absolute : starts_with_slash p ≡ true
  pub below_root : p ≢ text "/"
  pub no_dotdot : All (λ seg. seg ≢ text "..") (split_on b'/' p)

-- An absolute host path is taken as it is, and a relative one from the policy's directory.
abbrev pub resolve_host : Text → Text → Text
resolve_host base_dir host = if starts_with_slash host then host else join_path base_dir host

pub record IsMountOf (path : Text) (raw : RawMount) (base_dir : Text) (m : Mount) : Type 0 where
  pub path_valid : IsGuestPath path
  pub host_given : raw.host ≢ []
  pub mode_is : raw.mode ≡ mode_as_str m.mode
  pub path_is : m.guest_path ≡ path
  pub host_is : m.host_path ≡ resolve_host base_dir raw.host

-- The modes are spelled "ro" and "rw".
parse_mode_iff :
    (path t : Text) (mode : MountMode) → (parse_mode path t ≡ ok mode) ↔ (t ≡ mode_as_str mode)
unfolding parse_mode mode_as_str text
parse_mode_iff path t read_only =
    ground (arith, text_eq_iff t (text "ro"), text_eq_iff t (text "rw"))
parse_mode_iff path t read_write =
    ground (arith, text_eq_iff t (text "ro"), text_eq_iff t (text "rw"))

no_dotdot_of_any :
    (segs : List Text) → any (λ seg. text_eq seg (text "..")) segs ≡ false → HasNoDotdot segs
no_dotdot_of_any [] h = tt
no_dotdot_of_any (s ∷ segs) h = ground (arith, text_eq_iff s (text ".."), no_dotdot_of_any segs)

any_of_no_dotdot :
    (segs : List Text) → HasNoDotdot segs → any (λ seg. text_eq seg (text "..")) segs ≡ false
any_of_no_dotdot [] h = refl
any_of_no_dotdot (s ∷ segs) (p, h) =
    ground (arith, text_eq_iff s (text ".."), any_of_no_dotdot segs h)

-- A mount entry is accepted just when the guest path is absolute, not "/" and has no ".." segment,
-- the host path is not empty and the mode is "ro" or "rw". The mount has that path, the host path
-- resolved against the policy's directory, and that mode.
pub build_mount_iff :
    (path : Text) (raw : RawMount) (base_dir : Text) (m : Mount)
    → (build_mount path raw base_dir ≡ ok m) ↔ IsMountOf path raw base_dir m
unfolding build_mount
build_mount_iff path raw base_dir m = ground (
  arith,
  text_eq_iff path (text "/"),
  no_dotdot_of_any (split_on b'/' path),
  any_of_no_dotdot (split_on b'/' path),
  parse_mode_iff path raw.mode m.mode,
  parse_mode_iff path raw.mode read_only,
  parse_mode_iff path raw.mode read_write,
)
