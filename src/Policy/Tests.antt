-- ===== src/Policy/Tests.antt =====
-- A policy file, read and asked; and the theorems about policies at that file.
use toolcage.Prelude.{
  text, text_eq, cmp, split_on, ◌≡◌, ◌↔◌, refl, true, false, [], ◌∷◌, All, none, some, ok, err,
}
use toolcage.Policy.{
  RawMount, RawGrant, RawTool, RawPolicy, read_only, read_write, Mount, Grant, UnlistedMode,
  ToolRule, Decision, denied_by_policy, not_listed, Policy, default_limits, deny_with_grants,
  in_tool, path_has_dotdot,
}
use toolcage.Policy.Build.{
  from_raw, validate_limits, validate_env_key, join_path, parse_mode, build_mount, merge_env,
  merge_mounts, mounts_by_path, build_grant, to_map, tool_grant, tool_rule, build_tools,
  parse_unlisted, defaults_grant,
}
use toolcage.TreeMap.Order.{IsSorted}
use toolcage.TreeMap.{get, contains_key, insert, insert_all}
use toolcage.Policy.Decide.{decide, is_listed, listed_tools}
use toolcage.Policy.Decisions.{
  RawIsSorted, IsDefaultsOf, IsDecision, decide-from_raw, decide-GrantIsValid,
}
use toolcage.Policy.Grants.{GrantIsValid}
use toolcage.Policy.Mounts.{IsMountOf, build_mount_iff}
use toolcage.Policy.Ranges.{LimitsInRange, validate_limits_iff}
use toolcage.Policy.Listing.{IsRightFlag, flag_of, listed_tools-visible}

abbrev no_grant : RawGrant
no_grant = record {
  timeout_ms = none;
  fuel = none;
  memory_max_mb = none;
  output_max_kb = none;
  env = [];
  fs = [];
}

abbrev data_mount : RawMount
data_mount = record { host = text "d"; mode = text "ro" }

abbrev reader : RawTool
reader = record {
  deny = false;
  timeout_ms = some 500;
  fuel = none;
  memory_max_mb = none;
  output_max_kb = none;
  env = (text "A", text "1") ∷ [];
  fs = (text "/in", record { host = text "/srv"; mode = text "rw" }) ∷ [];
}

abbrev danger : RawTool
danger = record reader { deny = true; timeout_ms = none; env = []; fs = [] }

abbrev pub file : RawPolicy
file = record {
  version = 1;
  defaults = record no_grant { fs = (text "/data", data_mount) ∷ [] };
  unlisted_tools = none;
  tools = (text "cat", some reader) ∷ (text "echo", none) ∷ (text "rm", some danger) ∷ [];
}

abbrev data_at : Mount
data_at = record { guest_path = text "/data"; host_path = text "etc/d"; mode = read_only }

abbrev pub plain : Grant
plain = record { limits = default_limits; env = []; mounts = data_at ∷ [] }

abbrev pub reading : Grant
reading = record {
  limits = record default_limits { timeout_ms = 500 };
  env = (text "A", text "1") ∷ [];
  mounts =
      data_at ∷ record { guest_path = text "/in"; host_path = text "/srv"; mode = read_write } ∷ [];
}

abbrev pub policy : Policy
policy = record {
  source = none;
  defaults = plain;
  unlisted = UnlistedMode.deny;
  tools =
      (text "cat", ToolRule.allow reading)
      ∷ (text "echo", ToolRule.allow plain)
      ∷ (text "rm", ToolRule.deny)
      ∷ [];
}

unfoldable pub policy_run : Unit {0}
unfolding text text_eq cmp split_on get insert insert_all from_raw validate_limits validate_env_key
    join_path parse_mode build_mount merge_env merge_mounts mounts_by_path build_grant to_map
    tool_grant tool_rule build_tools parse_unlisted defaults_grant decide listed_tools
policy_run = tt

pub file_loads : from_raw file (text "etc") none ≡ ok policy
unfolding policy_run
file_loads = refl

rejects :
    (from_raw
        (record file { tools = (text "rm", some (record reader { deny = true })) ∷ [] })
        (text "etc")
        none
      ≡ err (deny_with_grants (text "rm")))
    × (from_raw
          (record file {
            tools =
                (text "cat", some (record reader { fs = (text "/a/../b", data_mount) ∷ [] })) ∷ [];
          })
          (text "etc")
          none
        ≡ err (in_tool (text "cat") (path_has_dotdot (text "/a/../b"))))
unfolding policy_run
rejects = (refl, refl)

answers :
    (decide policy (text "cat") ≡ Decision.allow reading)
    × (decide policy (text "rm") ≡ Decision.deny (denied_by_policy (text "rm")) true)
    × (decide policy (text "mv") ≡ Decision.deny (not_listed (text "mv")) false)
unfolding policy_run
answers = (refl, refl, refl)

pub file_IsSorted : RawIsSorted file
unfolding policy_run
file_IsSorted = record {
  env_sorted = tt;
  fs_sorted = (tt, tt);
  tools_sorted = ((refl, (refl, tt)), ((refl, tt), (tt, tt)));
  entries_sorted = (
    record { env_sorted = (tt, tt); fs_sorted = (tt, tt) },
    (tt, (record { env_sorted = tt; fs_sorted = tt }, tt)),
  );
}

decide-from_raw_example :
    IsDefaultsOf file.defaults (text "etc") plain
    × GrantIsValid plain
    × IsDecision file (text "etc") plain (text "cat") (decide policy (text "cat"))
decide-from_raw_example =
    decide-from_raw file (text "etc") none policy (text "cat") file_IsSorted file_loads

decide-GrantIsValid_example : GrantIsValid reading
decide-GrantIsValid_example =
    decide-GrantIsValid file (text "etc") none policy (text "cat") reading file_IsSorted file_loads
      answers.0

listed_tools-visible_example :
    IsSorted (listed_tools policy)
    × All (IsRightFlag policy) (listed_tools policy)
    × (get (text "cat") (listed_tools policy) ≡ flag_of policy (text "cat"))
    × (is_listed policy (text "cat") ≡ contains_key (text "cat") file.tools)
listed_tools-visible_example =
    listed_tools-visible file (text "etc") none policy (text "cat") file_IsSorted file_loads

build_mount_iff_example :
    (build_mount (text "/data") data_mount (text "etc") ≡ ok data_at)
    ↔ IsMountOf (text "/data") data_mount (text "etc") data_at
build_mount_iff_example = build_mount_iff (text "/data") data_mount (text "etc") data_at

validate_limits_iff_example :
    (validate_limits reading.limits ≡ ok tt) ↔ LimitsInRange reading.limits
validate_limits_iff_example = validate_limits_iff reading.limits
