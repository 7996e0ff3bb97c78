-- ===== src/Policy/Grants.antt =====
-- What `build_grant` of policy.rs makes of a base grant and an entry's overrides.
use toolcage.Prelude.{
  ℕ, Text, ◌≡◌, refl, ap, ◌∙◌, subst, ok-injective, List, [], Option, none, some, ok, >>=-eq-ok,
  arith,
}
use toolcage.TreeMap.{TreeMap, get, or_else}
use toolcage.TreeMap.Order.{IsSorted, insert_all-IsSorted, All-insert_all, get-insert_all, get-nil}
use toolcage.Policy.{RawMount, Mount, Limits, Grant}
use toolcage.Policy.Build.{
  merge_env, merge_mounts, mounts_by_path, build_grant, unwrap_or, merge_limits, validate_limits,
}
use toolcage.Policy.Ranges.{LimitsInRange, validate_limits_iff}
use toolcage.Policy.Mounts.{IsGuestPath, IsMountOf}
use toolcage.Policy.Merges.{
  HasEnvNames, merge_env_lem, by_path, mount_at, by_path-into_values, by_path-IsKeyed,
  HasGuestPaths, IsMountMerge, merge_mounts_lem,
}

-- A grant that can be handed to the sandbox: budgets in range, names of variables and guest paths
-- valid, no name and no path twice.
pub record GrantIsValid (g : Grant) : Type 0 where
  pub limits_in : LimitsInRange g.limits
  pub env_sorted : IsSorted g.env
  pub env_names : HasEnvNames g.env
  pub mounts_sorted : IsSorted (by_path g.mounts)
  pub mounts_paths : HasGuestPaths (by_path g.mounts)

-- `n` is the field's value if it has one, and else the base's.
abbrev pub IsSetTo : Option ℕ → ℕ → ℕ → Type 0
IsSetTo none base n = n ≡ base
IsSetTo (some v) base n = n ≡ v

-- The limits of a base with an entry's fields laid over them.
pub record AreLimits (base : Limits) (timeout_ms fuel memory_max_mb output_max_kb : Option ℕ)
    (l : Limits) : Type 0 where
  pub timeout_is : IsSetTo timeout_ms base.timeout_ms l.timeout_ms
  pub fuel_is : IsSetTo fuel base.fuel l.fuel
  pub memory_is : IsSetTo memory_max_mb base.memory_max_mb l.memory_max_mb
  pub output_is : IsSetTo output_max_kb base.output_max_kb l.output_max_kb

unwrap_or-IsSetTo : (o : Option ℕ) (base : ℕ) → IsSetTo o base (unwrap_or o base)
unwrap_or-IsSetTo none base = refl
unwrap_or-IsSetTo (some n) base = refl

merge_limits-AreLimits :
    (base : Limits) (t f mm o : Option ℕ) → AreLimits base t f mm o (merge_limits base t f mm o)
merge_limits-AreLimits base t f mm o = record {
  timeout_is = unwrap_or-IsSetTo t base.timeout_ms;
  fuel_is = unwrap_or-IsSetTo f base.fuel;
  memory_is = unwrap_or-IsSetTo mm base.memory_max_mb;
  output_is = unwrap_or-IsSetTo o base.output_max_kb;
}

-- `g` is the base grant with an entry's fields, variables and mounts laid over it.
pub record IsOverlay (LimitsAre : Limits → Type 0) (base_env env : TreeMap Text)
    (base_mounts : List Mount) (fs : TreeMap RawMount) (base_dir : Text) (g : Grant) : Type 0 where
  pub limits_are : LimitsAre g.limits
  pub env_at : (k : Text) → get k g.env ≡ or_else (get k env) (get k base_env)
  pub mount_kept : (p : Text) → get p fs ≡ none → mount_at p g.mounts ≡ mount_at p base_mounts
  pub mount_new :
      (p : Text) (raw : RawMount)
      → get p fs ≡ some raw
      → (m : Mount) × IsMountOf p raw base_dir m × (mount_at p g.mounts ≡ some m)

-- Collecting the base's mounts into a map changes nothing about them.
get-mounts_by_path :
    (p : Text) (mounts : List Mount)
    → IsSorted (by_path mounts)
    → get p (mounts_by_path mounts) ≡ mount_at p mounts
unfolding mounts_by_path
get-mounts_by_path p mounts h =
    ground (arith, get-insert_all p (by_path mounts) [] h, get-nil {V = Mount} p)

merge_base_mounts :
    (base_dir : Text) (base_mounts : List Mount) (fs : TreeMap RawMount) (merged : TreeMap Mount)
    → IsSorted (by_path base_mounts)
    → HasGuestPaths (by_path base_mounts)
    → IsSorted fs
    → merge_mounts base_dir fs (mounts_by_path base_mounts) ≡ ok merged
    → IsMountMerge base_dir fs (mounts_by_path base_mounts) merged
unfolding mounts_by_path
merge_base_mounts base_dir base_mounts fs merged sm pm sf e =
    merge_mounts_lem base_dir fs (mounts_by_path base_mounts) merged sf
      (insert_all-IsSorted (by_path base_mounts) [] tt)
      (All-insert_all (λ a. a.1.guest_path ≡ a.0) (by_path base_mounts) []
        (by_path-IsKeyed base_mounts) tt)
      (All-insert_all (λ a. IsGuestPath a.0) (by_path base_mounts) [] pm tt) e

pub build_grant_lem :
    (base : Limits) (t f mm o : Option ℕ) (base_env env : TreeMap Text) (base_mounts : List Mount)
    (fs : TreeMap RawMount) (base_dir : Text) (g : Grant)
    → IsSorted base_env
    → HasEnvNames base_env
    → IsSorted env
    → IsSorted (by_path base_mounts)
    → HasGuestPaths (by_path base_mounts)
    → IsSorted fs
    → build_grant base t f mm o base_env env base_mounts fs base_dir ≡ ok g
    → GrantIsValid g × IsOverlay (AreLimits base t f mm o) base_env env base_mounts fs base_dir g
unfolding build_grant
build_grant_lem base t f mm o base_env env base_mounts fs base_dir g sb nb se sm pm sf e =
    let (_, in_range, e1) = >>=-eq-ok (validate_limits (merge_limits base t f mm o)) _ e in
    let (merged_env, made_env, e2) = >>=-eq-ok (merge_env env base_env) _ e1 in
    let (merged, made, e3) =
      >>=-eq-ok (merge_mounts base_dir fs (mounts_by_path base_mounts)) _ e2 in
    let envs = merge_env_lem env base_env merged_env se sb nb made_env in
    let paths = merge_base_mounts base_dir base_mounts fs merged sm pm sf made in
    let listed = by_path-into_values merged paths.keyed in
    subst
      (λ x.
        GrantIsValid x × IsOverlay (AreLimits base t f mm o) base_env env base_mounts fs base_dir x)
      (ok-injective e3)
      (
        record {
          limits_in = (validate_limits_iff limits).0 in_range;
          env_sorted = envs.sorted;
          env_names = envs.names;
          mounts_sorted = rw listed paths.sorted;
          mounts_paths = rw listed paths.paths;
        },
        record {
          limits_are = merge_limits-AreLimits base t f mm o;
          env_at = envs.lookup;
          mount_kept =
              λ p h. ap (get p) listed ∙ paths.kept p h ∙ get-mounts_by_path p base_mounts sm;
          mount_new =
              λ p raw h. let (m, is, at) = paths.mounted p raw h in (m, is, ap (get p) listed ∙ at);
        },
      )
  where
    limits : Limits
    limits = merge_limits base t f mm o
