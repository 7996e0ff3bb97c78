-- ===== src/Policy/Build.antt =====
-- policy.rs from the raw shape to the policy: `build_grant`, `build_mount`, `validate_limits`,
-- `validate_env_key` and `Policy::from_yaml_str`. Paths are Unix paths.
use toolcage.Prelude.{
  ℕ, Text, text, text_eq, Bool, true, false, not, ◌||◌, List, [], ◌∷◌, ◌++◌, map, Option, none,
  some, ltb, ◌==◌, if◌then◌else◌, any, is_empty, split_on, Result, ok, err, ◌>>=◌, ◌>>◌, bail_if,
  map_err,
}
use toolcage.TreeMap.{TreeMap, insert, insert_all}
use toolcage.Policy.{
  max_timeout_ms, max_memory_max_mb, max_output_max_kb, min_fuel, RawMount, RawGrant, RawTool,
  RawPolicy, MountMode, read_only, read_write, Mount, Limits, default_limits, Grant, UnlistedMode,
  ToolRule, Policy, GrantError, timeout_out_of_range, fuel_too_small, memory_out_of_range,
  output_out_of_range, env_name_empty, env_name_has_equals, path_not_absolute, path_is_root,
  path_has_dotdot, host_empty, mode_unknown, PolicyError, invalid_yaml, unsupported_version,
  unlisted_unknown, in_defaults, tool_name_empty, deny_with_grants, in_tool,
}

unfoldable pub validate_limits : Limits → Result GrantError (Unit {0})
validate_limits l = do
  bail_if ((l.timeout_ms == 0) || ltb max_timeout_ms l.timeout_ms)
      (timeout_out_of_range l.timeout_ms)
  bail_if (ltb l.fuel min_fuel) (fuel_too_small l.fuel)
  bail_if ((l.memory_max_mb == 0) || ltb max_memory_max_mb l.memory_max_mb)
      (memory_out_of_range l.memory_max_mb)
  bail_if ((l.output_max_kb == 0) || ltb max_output_max_kb l.output_max_kb)
      (output_out_of_range l.output_max_kb)

abbrev pub contains_byte : ℕ → Text → Bool
contains_byte c t = any (λ b. b == c) t

unfoldable pub validate_env_key : Text → Result GrantError (Unit {0})
validate_env_key k = do
  bail_if (is_empty k) env_name_empty
  bail_if (contains_byte b'=' k) (env_name_has_equals k)

-- `starts_with('/')`, and `Path::is_absolute` on Unix.
abbrev pub starts_with_slash : Text → Bool
starts_with_slash [] = false
starts_with_slash (c ∷ t) = c == b'/'

abbrev pub ends_with_slash : Text → Bool
ends_with_slash [] = false
ends_with_slash (c ∷ []) = c == b'/'
ends_with_slash (c ∷ d ∷ t) = ends_with_slash (d ∷ t)

-- `Path::join` with a relative path.
unfoldable pub join_path : Text → Text → Text
join_path base t = if is_empty base || ends_with_slash base then base ++ t else base ++ b'/' ∷ t

unfoldable pub parse_mode : Text → Text → Result GrantError MountMode
parse_mode guest_path mode =
    if text_eq mode (text "ro")
    then ok read_only
    else if text_eq mode (text "rw")
    then ok read_write
    else err (mode_unknown guest_path mode)

unfoldable pub build_mount : Text → RawMount → Text → Result GrantError Mount
build_mount guest_path raw base_dir = do
  bail_if (not (starts_with_slash guest_path)) (path_not_absolute guest_path)
  bail_if (text_eq guest_path (text "/")) (path_is_root guest_path)
  bail_if (any (λ seg. text_eq seg (text "..")) (split_on b'/' guest_path))
      (path_has_dotdot guest_path)
  bail_if (is_empty raw.host) (host_empty guest_path)
  mode ← parse_mode guest_path raw.mode
  ok (record {
    guest_path = guest_path;
    host_path = if starts_with_slash raw.host then raw.host else join_path base_dir raw.host;
    mode = mode;
  })

-- `unwrap_or`
abbrev pub unwrap_or : Option ℕ → ℕ → ℕ
unwrap_or none d = d
unwrap_or (some n) d = n

-- The loop over `env` in `build_grant`.
unfoldable pub merge_env : List (Text × Text) → TreeMap Text → Result GrantError (TreeMap Text)
merge_env [] merged = ok merged
merge_env ((k, v) ∷ env) merged = validate_env_key k >> merge_env env (insert k v merged)

-- The loop over `fs` in `build_grant`.
unfoldable pub merge_mounts :
    Text → List (Text × RawMount) → TreeMap Mount → Result GrantError (TreeMap Mount)
merge_mounts base_dir [] merged = ok merged
merge_mounts base_dir ((guest_path, raw) ∷ fs) merged =
    build_mount guest_path raw base_dir >>= λ mount.
    merge_mounts base_dir fs (insert guest_path mount merged)

-- `base_mounts.iter().map(|m| (m.guest_path.clone(), m.clone())).collect()`
unfoldable pub mounts_by_path : List Mount → TreeMap Mount
mounts_by_path mounts = insert_all (map (λ m. (m.guest_path, m)) mounts) []

-- `into_values`
abbrev pub into_values : {V : Type 0} → TreeMap V → List V
into_values [] = []
into_values ((k, v) ∷ m) = v ∷ into_values m

abbrev pub merge_limits : Limits → Option ℕ → Option ℕ → Option ℕ → Option ℕ → Limits
merge_limits base timeout_ms fuel memory_max_mb output_max_kb = record {
  timeout_ms = unwrap_or timeout_ms base.timeout_ms;
  fuel = unwrap_or fuel base.fuel;
  memory_max_mb = unwrap_or memory_max_mb base.memory_max_mb;
  output_max_kb = unwrap_or output_max_kb base.output_max_kb;
}

unfoldable pub build_grant :
    Limits
    → (timeout_ms fuel memory_max_mb output_max_kb : Option ℕ) (base_env env : TreeMap Text)
    → List Mount
    → TreeMap RawMount
    → Text
    → Result GrantError Grant
build_grant base timeout_ms fuel memory_max_mb output_max_kb base_env env base_mounts fs base_dir =
    do
      let limits = merge_limits base timeout_ms fuel memory_max_mb output_max_kb
      validate_limits limits
      merged_env ← merge_env env base_env
      merged ← merge_mounts base_dir fs (mounts_by_path base_mounts)
      ok (record { limits = limits; env = merged_env; mounts = into_values merged })

-- `to_map`
unfoldable pub to_map : List (Text × Text) → TreeMap Text
to_map pairs = insert_all pairs []

abbrev pub is_some : {A : Type 0} → Option A → Bool
is_some none = false
is_some (some a) = true

abbrev pub has_grants : RawTool → Bool
has_grants t =
    is_some t.timeout_ms
    || is_some t.fuel
    || is_some t.memory_max_mb
    || is_some t.output_max_kb
    || not (is_empty t.env)
    || not (is_empty t.fs)

-- The grant of a listed tool that is not denied.
unfoldable pub tool_grant : Grant → Text → RawTool → Result GrantError Grant
tool_grant defaults base_dir t =
    build_grant defaults.limits t.timeout_ms t.fuel t.memory_max_mb t.output_max_kb
      (to_map defaults.env) t.env defaults.mounts t.fs base_dir

-- The body of the loop over `raw.tools`, behind the test of the name.
unfoldable pub tool_rule : Grant → Text → Text → Option RawTool → Result PolicyError ToolRule
tool_rule defaults base_dir name none = ok (ToolRule.allow defaults)
tool_rule defaults base_dir name (some t) =
    if t.deny
    then (if has_grants t then err (deny_with_grants name) else ok ToolRule.deny)
    else (map_err (in_tool name) (tool_grant defaults base_dir t) >>= λ g. ok (ToolRule.allow g))

unfoldable pub build_tools :
    Grant
    → Text
    → List (Text × Option RawTool)
    → TreeMap ToolRule
    → Result PolicyError (TreeMap ToolRule)
build_tools defaults base_dir [] tools = ok tools
build_tools defaults base_dir ((name, entry) ∷ rest) tools =
    bail_if (is_empty name) tool_name_empty
    >> (tool_rule defaults base_dir name entry >>= λ rule.
        build_tools defaults base_dir rest (insert name rule tools))

unfoldable pub parse_unlisted : Option Text → Result PolicyError UnlistedMode
parse_unlisted none = ok UnlistedMode.deny
parse_unlisted (some t) =
    if text_eq t (text "deny")
    then ok UnlistedMode.deny
    else if text_eq t (text "defaults")
    then ok UnlistedMode.defaults
    else err (unlisted_unknown t)

-- The grant of the defaults section.
unfoldable pub defaults_grant : Text → RawGrant → Result GrantError Grant
defaults_grant base_dir d =
    build_grant default_limits d.timeout_ms d.fuel d.memory_max_mb d.output_max_kb [] d.env [] d.fs
      base_dir

-- `from_yaml_str` behind serde's reading of the text.
unfoldable pub from_raw : RawPolicy → Text → Option Text → Result PolicyError Policy
from_raw raw base_dir source = do
  bail_if (not (raw.version == 1)) (unsupported_version raw.version)
  unlisted ← parse_unlisted raw.unlisted_tools
  defaults ← map_err in_defaults (defaults_grant base_dir raw.defaults)
  tools ← build_tools defaults base_dir raw.tools []
  ok (record { source = source; defaults = defaults; unlisted = unlisted; tools = tools })

-- `parse_yaml` is `serde_yaml::from_str` at `RawPolicy`.
unfoldable pub from_yaml_str :
    (Text → Option RawPolicy) → Text → Text → Option Text → Result PolicyError Policy
from_yaml_str parse_yaml t base_dir source = elim (parse_yaml t) [
  | none ↦ err invalid_yaml
  | some raw ↦ from_raw raw base_dir source
]
