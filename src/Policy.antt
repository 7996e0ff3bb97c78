-- ===== src/Policy.antt =====
-- The data of policy.rs: the file's shape as serde reads it, and the policy that is built from it.
-- Errors are values with one constructor for each `bail!`; their message texts are not modelled.
pub mod Build
pub mod Decide
pub mod Ranges
pub mod Mounts
pub mod Merges
pub mod Grants
pub mod Rules
pub mod Decisions
pub mod Listing
pub mod Tests
use toolcage.Prelude.{ℕ, Text, Bool, Option, List, [], text}
use toolcage.TreeMap.{TreeMap}

abbrev pub default_timeout_ms : ℕ
default_timeout_ms = 30000

abbrev pub default_fuel : ℕ
default_fuel = 2000000000

abbrev pub default_memory_max_mb : ℕ
default_memory_max_mb = 256

abbrev pub default_output_max_kb : ℕ
default_output_max_kb = 4096

abbrev pub max_timeout_ms : ℕ
max_timeout_ms = 600000

abbrev pub max_memory_max_mb : ℕ
max_memory_max_mb = 4096

abbrev pub max_output_max_kb : ℕ
max_output_max_kb = 1048576

abbrev pub min_fuel : ℕ
min_fuel = 1000

pub record RawMount : Type 0 where
  pub host : Text
  pub mode : Text

pub record RawGrant : Type 0 where
  pub timeout_ms : Option ℕ
  pub fuel : Option ℕ
  pub memory_max_mb : Option ℕ
  pub output_max_kb : Option ℕ
  pub env : TreeMap Text
  pub fs : TreeMap RawMount

pub record RawTool : Type 0 where
  pub deny : Bool
  pub timeout_ms : Option ℕ
  pub fuel : Option ℕ
  pub memory_max_mb : Option ℕ
  pub output_max_kb : Option ℕ
  pub env : TreeMap Text
  pub fs : TreeMap RawMount

pub record RawPolicy : Type 0 where
  pub version : ℕ
  pub defaults : RawGrant
  pub unlisted_tools : Option Text
  pub tools : TreeMap (Option RawTool)

pub data MountMode : Type 0 where
  read_only read_write : MountMode

-- `MountMode::as_str`
unfoldable pub mode_as_str : MountMode → Text
mode_as_str read_only = text "ro"
mode_as_str read_write = text "rw"

pub record Mount : Type 0 where
  pub guest_path : Text
  pub host_path : Text
  pub mode : MountMode

pub record Limits : Type 0 where
  pub timeout_ms : ℕ
  pub fuel : ℕ
  pub memory_max_mb : ℕ
  pub output_max_kb : ℕ

-- `Limits::default`
abbrev pub default_limits : Limits
default_limits = record {
  timeout_ms = default_timeout_ms;
  fuel = default_fuel;
  memory_max_mb = default_memory_max_mb;
  output_max_kb = default_output_max_kb;
}

pub record Grant : Type 0 where
  pub limits : Limits
  pub env : List (Text × Text)
  pub mounts : List Mount

-- `Grant::default`
abbrev pub default_grant : Grant
default_grant = record { limits = default_limits; env = []; mounts = [] }

pub data UnlistedMode : Type 0 where
  deny defaults : UnlistedMode

pub data ToolRule : Type 0 where
  deny : ToolRule
  allow : Grant → ToolRule

-- The two texts that `decide` formats as its reason.
pub data Reason : Type 0 where
  denied_by_policy : Text → Reason
  not_listed : Text → Reason

pub data Decision : Type 0 where
  deny : (reason : Reason) (listed : Bool) → Decision
  allow : Grant → Decision

pub record Policy : Type 0 where
  pub source : Option Text
  pub defaults : Grant
  pub unlisted : UnlistedMode
  pub tools : TreeMap ToolRule

pub data GrantError : Type 0 where
  timeout_out_of_range fuel_too_small memory_out_of_range output_out_of_range : ℕ → GrantError
  env_name_empty : GrantError
  env_name_has_equals : Text → GrantError
  path_not_absolute path_is_root path_has_dotdot host_empty : Text → GrantError
  mode_unknown : Text → Text → GrantError

pub data PolicyError : Type 0 where
  read_failed : Text → PolicyError
  invalid_yaml : PolicyError
  unsupported_version : ℕ → PolicyError
  unlisted_unknown : Text → PolicyError
  in_defaults : GrantError → PolicyError
  tool_name_empty : PolicyError
  deny_with_grants : Text → PolicyError
  in_tool : Text → GrantError → PolicyError
