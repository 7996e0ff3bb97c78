-- ===== src/Main/Missing.antt =====
-- When `cmd_check` of main.rs exits with 0.
use toolcage.Prelude.{◌≡◌, Text, Bool, true, List, map, All, none, some, ok}
use toolcage.TreeMap.{TreeMap}
use toolcage.Policy.{Grant, ToolRule, Decision, Policy}
use toolcage.Policy.Decide.{load, decide, allows}
use toolcage.Main.{System}
use toolcage.Main.Flags.{check_flags}

module _ (is_dir : Text → Bool) where
  abbrev pub HostsExist : Grant → Type 0
  HostsExist g = All (λ m. is_dir m.host_path ≡ true) g.mounts

  module _ (p : Policy) where
    abbrev flags : TreeMap ToolRule → List (Text × Bool)
    flags rules = map (λ e. (e.0, allows e.1)) rules

-- The arguments name a policy file that loads, and the host directories are there for the defaults
-- and for every grant that the policy makes.
pub record IsSound {W : Type 0} (sys : System W) (args : List Text) (w : W) : Type 0 where
  pub path : Text
  pub p : Policy
  pub flags_are : check_flags sys.debug_str args none ≡ ok (some path)
  pub loads : load (λ f. sys.read_to_string f w) sys.parent sys.parse_yaml path ≡ ok p
  pub defaults_exist : HostsExist (λ d. sys.is_dir d w) p.defaults
  pub grants_exist :
      (name : Text) (g : Grant)
      → decide p name ≡ Decision.allow g
      → HostsExist (λ d. sys.is_dir d w) g
