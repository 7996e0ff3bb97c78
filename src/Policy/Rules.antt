-- ===== src/Policy/Rules.antt =====
-- The loop over `raw.tools` in `Policy::from_yaml_str` of policy.rs.
use toolcage.Prelude.{
  Text, text_eq, text_eq_iff, ◌≡◌, ap, true, false, [], ◌∷◌, All, Option, none, some, ok, >>=-eq-ok,
  map_err, map_err-eq-ok, bail_if, is_empty, ok-injective, Bool-cases, inl, inr, subst, arith,
}
use toolcage.TreeMap.{TreeMap, get, insert}
use toolcage.TreeMap.Laws.{get-insert}
use toolcage.TreeMap.Order.{
  IsSorted, IsBelow, get-IsBelow, insert-IsSorted, insert_all-IsSorted, All-insert_all,
  get-insert_all, get-nil,
}
use toolcage.Policy.{RawTool, Grant, ToolRule, tool_name_empty, in_tool}
use toolcage.Policy.Build.{to_map, has_grants, tool_grant, tool_rule, build_tools}
use toolcage.Policy.Ranges.{IsEnvName}
use toolcage.Policy.Grants.{GrantIsValid, AreLimits, IsOverlay, build_grant_lem}

-- serde's maps hold each key once, in order.
pub record ToolIsSorted (t : RawTool) : Type 0 where
  pub env_sorted : IsSorted t.env
  pub fs_sorted : IsSorted t.fs

abbrev pub EntryIsSorted : Option RawTool → Type 0
EntryIsSorted none = Unit
EntryIsSorted (some t) = ToolIsSorted t

-- The grant of the defaults, overridden by the tool's own fields, variables and mounts.
abbrev pub IsToolGrant : Grant → Text → RawTool → Grant → Type 0
IsToolGrant defaults base_dir t g =
    IsOverlay (AreLimits defaults.limits t.timeout_ms t.fuel t.memory_max_mb t.output_max_kb)
      defaults.env t.env defaults.mounts t.fs base_dir g

-- What an entry of the policy file means.
pub data IsRuleOf (defaults : Grant) (base_dir : Text) : Option RawTool → ToolRule → Type 0 where
  bare : IsRuleOf defaults base_dir none (ToolRule.allow defaults)
  denied :
      (t : RawTool)
      → t.deny ≡ true
      → has_grants t ≡ false
      → IsRuleOf defaults base_dir (some t) ToolRule.deny
  granted :
      (t : RawTool) (g : Grant)
      → t.deny ≡ false
      → GrantIsValid g
      → IsToolGrant defaults base_dir t g
      → IsRuleOf defaults base_dir (some t) (ToolRule.allow g)

get-to_map : (k : Text) (env : TreeMap Text) → IsSorted env → get k (to_map env) ≡ get k env
unfolding to_map
get-to_map k env h = ground (arith, get-insert_all k env [] h, get-nil {V = Text} k)

tool_grant_lem :
    (defaults : Grant) (base_dir : Text) (t : RawTool) (g : Grant)
    → GrantIsValid defaults
    → ToolIsSorted t
    → tool_grant defaults base_dir t ≡ ok g
    → GrantIsValid g × IsToolGrant defaults base_dir t g
unfolding tool_grant to_map
tool_grant_lem defaults base_dir t g v s e =
    let (valid, over) =
      build_grant_lem defaults.limits t.timeout_ms t.fuel t.memory_max_mb t.output_max_kb
        (to_map defaults.env) t.env defaults.mounts t.fs base_dir g
        (insert_all-IsSorted defaults.env [] tt)
        (All-insert_all (λ a. IsEnvName a.0) defaults.env [] v.env_names tt) s.env_sorted
        v.mounts_sorted v.mounts_paths s.fs_sorted e in
    (
      valid,
      record {
        limits_are = over.limits_are;
        env_at = λ k. ground (arith, over.env_at k, get-to_map k defaults.env v.env_sorted);
        mount_kept = over.mount_kept;
        mount_new = over.mount_new;
      },
    )

tool_rule_lem :
    (defaults : Grant) (base_dir name : Text) (entry : Option RawTool) (rule : ToolRule)
    → GrantIsValid defaults
    → EntryIsSorted entry
    → tool_rule defaults base_dir name entry ≡ ok rule
    → IsRuleOf defaults base_dir entry rule
unfolding tool_rule
tool_rule_lem defaults base_dir name none rule v s e =
    subst (λ r. IsRuleOf defaults base_dir none r) (ok-injective e) bare
tool_rule_lem defaults base_dir name (some t) rule v s e = elim (Bool-cases t.deny) [
  | inl d ↦ elim (Bool-cases (has_grants t)) [
    | inl clash ↦ cc (simp (d, clash) at e)
    | inr alone ↦
        subst (λ r. IsRuleOf defaults base_dir (some t) r) (ok-injective (simp (d, alone) at e))
          (denied t d alone)
  ]
  | inr a ↦
      let (g, made, done) =
        >>=-eq-ok (map_err (in_tool name) (tool_grant defaults base_dir t)) _ (simp a at e) in
      let (valid, over) =
        tool_grant_lem defaults base_dir t g v s (map_err-eq-ok (in_tool name) _ made) in
      subst (λ r. IsRuleOf defaults base_dir (some t) r) (ok-injective done)
        (granted t g a valid over)
]

abbrev pub EntriesAreSorted : TreeMap (Option RawTool) → Type 0
EntriesAreSorted m = All (λ e. EntryIsSorted e.1) m

module _ (defaults : Grant) (base_dir : Text) where
  -- Each entry of the file has its rule in the policy, and no other tool has one.
  pub record HasRules (entries : TreeMap (Option RawTool)) (before tools : TreeMap ToolRule)
      : Type 0 where
    pub sorted : IsSorted tools
    pub kept : (name : Text) → get name entries ≡ none → get name tools ≡ get name before
    pub ruled :
        (name : Text) (entry : Option RawTool)
        → get name entries ≡ some entry
        → (r : ToolRule) × IsRuleOf defaults base_dir entry r × (get name tools ≡ some r)

  HasRules-cons :
      (n : Text) (e : Option RawTool) (r : ToolRule) (entries : TreeMap (Option RawTool))
      (before tools : TreeMap ToolRule)
      → IsBelow n entries
      → IsRuleOf defaults base_dir e r
      → HasRules entries (insert n r before) tools
      → HasRules ((n, e) ∷ entries) before tools
  unfolding get
  HasRules-cons n e r entries before tools below new rest = record {
    sorted = rest.sorted;
    kept = λ m h. ground (arith, rest.kept m, get-insert n m r before);
    ruled = λ m entry h. elim (Bool-cases (text_eq n m)) [
      | inl same ↦
          let p : n ≡ m = (text_eq_iff n m).0 same in
          let q : e ≡ entry = cc (rw same at h) in
          (
            r,
            rw (← q) new,
            ground (
              arith,
              rest.kept m,
              get-insert n m r before,
              get-IsBelow n entries below,
              ap (λ t. get t entries) p,
            ),
          )
      | inr other ↦ rest.ruled m entry (rw other at h)
    ];
  }

  pub build_tools_lem :
      (entries : TreeMap (Option RawTool)) (before tools : TreeMap ToolRule)
      → GrantIsValid defaults
      → IsSorted entries
      → EntriesAreSorted entries
      → IsSorted before
      → build_tools defaults base_dir entries before ≡ ok tools
      → HasRules entries before tools
  unfolding build_tools get
  build_tools_lem [] before tools v s es sb e = record {
    sorted = ground arith;
    kept = λ m h. ground arith;
    ruled = λ m entry h. cc;
  }
  build_tools_lem ((n, entry) ∷ entries) before tools v (below, s) (s0, es) sb e =
      let (_, named, e1) = >>=-eq-ok (bail_if (is_empty n) tool_name_empty) _ e in
      let (r, ruled, e2) = >>=-eq-ok (tool_rule defaults base_dir n entry) _ e1 in
      HasRules-cons n entry r entries before tools below
        (tool_rule_lem defaults base_dir n entry r v s0 ruled)
        (build_tools_lem entries (insert n r before) tools v s es (insert-IsSorted n r before sb)
          e2)
