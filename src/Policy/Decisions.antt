-- ===== src/Policy/Decisions.antt =====
-- What `Policy::decide` of policy.rs answers for a policy that `from_yaml_str` has built, in terms
-- of the file.
use toolcage.Prelude.{
  Text, text, text_eq_iff, ◌≡◌, ◌≢◌, ◌∙◌, true, false, [], Option, none, some, ok, not, ◌==◌,
  >>=-eq-ok, map_err, map_err-eq-ok, bail_if, ok-injective, Option-cases, inl, inr, subst, arith,
}
use toolcage.TreeMap.{get}
use toolcage.TreeMap.Order.{IsSorted, get-nil}
use toolcage.Policy.{
  RawPolicy, RawTool, RawGrant, default_limits, Grant, UnlistedMode, ToolRule, Decision,
  denied_by_policy, not_listed, Policy, unsupported_version, in_defaults,
}
use toolcage.Policy.Build.{defaults_grant, build_tools, parse_unlisted, from_raw}
use toolcage.Policy.Decide.{decide, decide_unlisted}
use toolcage.Policy.Grants.{GrantIsValid, AreLimits, IsOverlay, build_grant_lem}
use toolcage.Policy.Rules.{
  EntriesAreSorted, IsToolGrant, IsRuleOf, bare, denied, granted, HasRules, build_tools_lem,
}

-- What serde's maps guarantee: each key once, in order.
pub record RawIsSorted (raw : RawPolicy) : Type 0 where
  pub env_sorted : IsSorted raw.defaults.env
  pub fs_sorted : IsSorted raw.defaults.fs
  pub tools_sorted : IsSorted raw.tools
  pub entries_sorted : EntriesAreSorted raw.tools

-- The built-in limits, overridden by the defaults section.
abbrev pub IsDefaultsOf : RawGrant → Text → Grant → Type 0
IsDefaultsOf d base_dir g =
    IsOverlay (AreLimits default_limits d.timeout_ms d.fuel d.memory_max_mb d.output_max_kb) []
      d.env [] d.fs base_dir g

pub record IsPolicyOf (raw : RawPolicy) (base_dir : Text) (p : Policy) : Type 0 where
  pub version_is : raw.version ≡ 1
  pub unlisted_is : parse_unlisted raw.unlisted_tools ≡ ok p.unlisted
  pub defaults_valid : GrantIsValid p.defaults
  pub defaults_are : IsDefaultsOf raw.defaults base_dir p.defaults
  pub rules : HasRules p.defaults base_dir raw.tools [] p.tools

version_one :
    (raw : RawPolicy)
    → bail_if (not (raw.version == 1)) (unsupported_version raw.version) ≡ ok tt
    → raw.version ≡ 1
version_one raw h = ground arith

pub from_raw_lem :
    (raw : RawPolicy) (base_dir : Text) (source : Option Text) (p : Policy)
    → RawIsSorted raw
    → from_raw raw base_dir source ≡ ok p
    → IsPolicyOf raw base_dir p
unfolding from_raw defaults_grant
from_raw_lem raw base_dir source p s e =
    let (_, version, e1) =
      >>=-eq-ok (bail_if (not (raw.version == 1)) (unsupported_version raw.version)) _ e in
    let (unlisted, mode, e2) = >>=-eq-ok (parse_unlisted raw.unlisted_tools) _ e1 in
    let (d, made, e3) =
      >>=-eq-ok (map_err in_defaults (defaults_grant base_dir raw.defaults)) _ e2 in
    let (tools, ruled, e4) = >>=-eq-ok (build_tools d base_dir raw.tools []) _ e3 in
    let (valid, over) =
      build_grant_lem default_limits _ _ _ _ [] raw.defaults.env [] raw.defaults.fs base_dir d tt tt
        s.env_sorted tt tt s.fs_sorted (map_err-eq-ok in_defaults _ made) in
    subst (IsPolicyOf raw base_dir) (ok-injective e4) (record {
      version_is = version_one raw version;
      unlisted_is = mode;
      defaults_valid = valid;
      defaults_are = over;
      rules =
          build_tools_lem d base_dir raw.tools [] tools valid s.tools_sorted s.entries_sorted tt
            ruled;
    })

-- The answer that the policy file calls for, with the part of the file that says so.
pub data IsDecision (raw : RawPolicy) (base_dir : Text) (defaults : Grant) (tool : Text)
    : Decision → Type 0 where
  listed_deny :
      (t : RawTool)
      → get tool raw.tools ≡ some (some t)
      → t.deny ≡ true
      → IsDecision raw base_dir defaults tool (Decision.deny (denied_by_policy tool) true)
  unlisted_deny :
      get tool raw.tools ≡ none
      → raw.unlisted_tools ≢ some (text "defaults")
      → IsDecision raw base_dir defaults tool (Decision.deny (not_listed tool) false)
  unlisted_allow :
      get tool raw.tools ≡ none
      → raw.unlisted_tools ≡ some (text "defaults")
      → IsDecision raw base_dir defaults tool (Decision.allow defaults)
  listed_bare :
      get tool raw.tools ≡ some none
      → IsDecision raw base_dir defaults tool (Decision.allow defaults)
  listed_allow :
      (t : RawTool) (g : Grant)
      → get tool raw.tools ≡ some (some t)
      → t.deny ≡ false
      → GrantIsValid g
      → IsToolGrant defaults base_dir t g
      → IsDecision raw base_dir defaults tool (Decision.allow g)

parse_unlisted-deny :
    (o : Option Text) → parse_unlisted o ≡ ok UnlistedMode.deny → o ≢ some (text "defaults")
unfolding parse_unlisted text
parse_unlisted-deny none h e = cc
parse_unlisted-deny (some t) h e =
    ground (arith, text_eq_iff t (text "deny"), text_eq_iff t (text "defaults"))

parse_unlisted-defaults :
    (o : Option Text) → parse_unlisted o ≡ ok UnlistedMode.defaults → o ≡ some (text "defaults")
unfolding parse_unlisted
parse_unlisted-defaults none h = cc
parse_unlisted-defaults (some t) h =
    ground (arith, text_eq_iff t (text "deny"), text_eq_iff t (text "defaults"))

module _ (raw : RawPolicy) (base_dir : Text) (p : Policy) (tool : Text) where
  decide_unlisted_lem :
      (mode : UnlistedMode)
      → parse_unlisted raw.unlisted_tools ≡ ok mode
      → get tool raw.tools ≡ none
      → IsDecision raw base_dir p.defaults tool (decide_unlisted mode p.defaults tool)
  unfolding decide_unlisted
  decide_unlisted_lem UnlistedMode.deny h e =
      unlisted_deny e (parse_unlisted-deny raw.unlisted_tools h)
  decide_unlisted_lem UnlistedMode.defaults h e =
      unlisted_allow e (parse_unlisted-defaults raw.unlisted_tools h)

  decision_of : ToolRule → Decision
  decision_of ToolRule.deny = Decision.deny (denied_by_policy tool) true
  decision_of (ToolRule.allow g) = Decision.allow g

  decision_of_lem :
      (entry : Option RawTool) (r : ToolRule)
      → get tool raw.tools ≡ some entry
      → IsRuleOf p.defaults base_dir entry r
      → IsDecision raw base_dir p.defaults tool (decision_of r)
  unfolding decision_of
  decision_of_lem entry r e bare = listed_bare e
  decision_of_lem entry r e (denied t d alone) = listed_deny t e d
  decision_of_lem entry r e (granted t g a valid over) = listed_allow t g e a valid over

  decide-rule : (r : ToolRule) → get tool p.tools ≡ some r → decide p tool ≡ decision_of r
  unfolding decide decision_of
  decide-rule ToolRule.deny e = ground arith
  decide-rule (ToolRule.allow g) e = ground arith

  decide-no_rule :
      get tool p.tools ≡ none → decide p tool ≡ decide_unlisted p.unlisted p.defaults tool
  unfolding decide
  decide-no_rule e = ground arith

  decide_lem : IsPolicyOf raw base_dir p → IsDecision raw base_dir p.defaults tool (decide p tool)
  decide_lem s = elim (Option-cases (get tool raw.tools)) [
    | inl e ↦
        rw (decide-no_rule (s.rules.kept tool e ∙ get-nil tool))
          (decide_unlisted_lem p.unlisted s.unlisted_is e)
    | inr (entry, e) ↦
        let (r, is, at) = s.rules.ruled tool entry e in
        rw (decide-rule r at) (decision_of_lem entry r e is)
  ]

-- For a policy that `from_yaml_str` accepts, the defaults are valid and are the built-in limits
-- overridden field by field by the file's `defaults`, with the variables and the mounts of that
-- section and no others, and `decide` gives the answer the file calls for: a tool with `deny:
-- true` is denied as listed; a tool that is not in the file is denied unless `unlisted_tools` is
-- "defaults", which gives it the defaults; an empty entry gives the defaults; any other entry
-- gives a valid grant that is the defaults overridden by the entry, field by field, variable by
-- variable and mount by mount.
pub decide-from_raw :
    (raw : RawPolicy) (base_dir : Text) (source : Option Text) (p : Policy) (tool : Text)
    → RawIsSorted raw
    → from_raw raw base_dir source ≡ ok p
    → IsDefaultsOf raw.defaults base_dir p.defaults
      × GrantIsValid p.defaults
      × IsDecision raw base_dir p.defaults tool (decide p tool)
decide-from_raw raw base_dir source p tool s e =
    let is = from_raw_lem raw base_dir source p s e in
    (is.defaults_are, is.defaults_valid, decide_lem raw base_dir p tool is)

allow-injective : {g h : Grant} → Decision.allow g ≡ Decision.allow h → g ≡ h
allow-injective e = cc

allowed-GrantIsValid :
    {raw : RawPolicy} {base_dir : Text} {d : Grant} {tool : Text} {a : Decision}
    → IsDecision raw base_dir d tool a
    → (g : Grant) → GrantIsValid d
    → a ≡ Decision.allow g
    → GrantIsValid g
allowed-GrantIsValid (listed_deny t e h) g v q = cc
allowed-GrantIsValid (unlisted_deny e h) g v q = cc
allowed-GrantIsValid (unlisted_allow e h) g v q = subst GrantIsValid (allow-injective q) v
allowed-GrantIsValid (listed_bare e) g v q = subst GrantIsValid (allow-injective q) v
allowed-GrantIsValid (listed_allow t g' e h w over) g v q = subst GrantIsValid (allow-injective q) w

-- Whatever a policy that `from_yaml_str` accepts grants to a tool is valid: its four budgets are in
-- range, its variables have names without `=`, its guest paths are absolute, below the root and
-- without `..`, and no name or path stands twice.
pub decide-GrantIsValid :
    (raw : RawPolicy) (base_dir : Text) (source : Option Text) (p : Policy) (tool : Text)
    (g : Grant)
    → RawIsSorted raw
    → from_raw raw base_dir source ≡ ok p
    → decide p tool ≡ Decision.allow g
    → GrantIsValid g
decide-GrantIsValid raw base_dir source p tool g s e =
    allowed-GrantIsValid (decide-from_raw raw base_dir source p tool s e).2 g
      (from_raw_lem raw base_dir source p s e).defaults_valid
