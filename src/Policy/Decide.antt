-- ===== src/Policy/Decide.antt =====
-- The methods of `Policy` in policy.rs: `permissive_vacuum`, `load`, `decide`, `is_listed`,
-- `visible` and `listed_tools`.
use toolcage.Prelude.{Text, text, Bool, true, false, List, [], map, Option, none, some, Result, err}
use toolcage.TreeMap.{get, contains_key}
use toolcage.Policy.{
  RawPolicy, default_grant, Grant, UnlistedMode, ToolRule, Decision, denied_by_policy, not_listed,
  Policy, PolicyError, read_failed,
}
use toolcage.Policy.Build.{from_yaml_str}

unfoldable pub permissive_vacuum : Policy
permissive_vacuum = record {
  source = none;
  defaults = default_grant;
  unlisted = UnlistedMode.defaults;
  tools = [];
}

abbrev pub path_or : Option Text → Text → Text
path_or none d = d
path_or (some p) d = p

-- The file system, `Path::parent` and serde are parameters.
unfoldable pub load :
    (read_to_string : Text → Option Text) (parent : Text → Option Text)
    (parse_yaml : Text → Option RawPolicy)
    → Text
    → Result PolicyError Policy
load read_to_string parent parse_yaml path = elim (read_to_string path) [
  | none ↦ err (read_failed path)
  | some t ↦ from_yaml_str parse_yaml t (path_or (parent path) (text ".")) (some path)
]

-- `decide` when the tool is not in the policy.
unfoldable pub decide_unlisted : UnlistedMode → Grant → Text → Decision
decide_unlisted UnlistedMode.defaults defaults tool = Decision.allow defaults
decide_unlisted UnlistedMode.deny defaults tool = Decision.deny (not_listed tool) false

unfoldable pub decide : Policy → Text → Decision
unfolding decide_unlisted
decide p tool = elim (get tool p.tools) [
  | some ToolRule.deny ↦ Decision.deny (denied_by_policy tool) true
  | some (ToolRule.allow g) ↦ Decision.allow g
  | none ↦ decide_unlisted p.unlisted p.defaults tool
]

unfoldable pub is_listed : Policy → Text → Bool
is_listed p tool = contains_key tool p.tools

abbrev pub is_allow : Decision → Bool
is_allow (Decision.deny reason listed) = false
is_allow (Decision.allow g) = true

unfoldable pub visible : Policy → Text → Bool
visible p tool = is_allow (decide p tool)

abbrev pub allows : ToolRule → Bool
allows ToolRule.deny = false
allows (ToolRule.allow g) = true

unfoldable pub listed_tools : Policy → List (Text × Bool)
listed_tools p = map (λ e. (e.0, allows e.1)) p.tools
