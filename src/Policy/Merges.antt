-- ===== src/Policy/Merges.antt =====
-- The merges of variables and of mounts in `build_grant` of policy.rs.
use toolcage.Prelude.{
  Text, text_eq_iff, ◌≡◌, refl, ap, ap₂, text_eq, Bool-cases, inl, inr, List, [], ◌∷◌, All, map,
  Option, none, some, ok, >>=-eq-ok, arith,
}
use toolcage.TreeMap.{TreeMap, get, insert, or_else}
use toolcage.TreeMap.Laws.{get-insert}
use toolcage.TreeMap.Order.{IsSorted, IsBelow, get-IsBelow, insert-IsSorted, All-insert}
use toolcage.Policy.{RawMount, Mount}
use toolcage.Policy.Build.{validate_env_key, merge_env, merge_mounts, into_values, build_mount}
use toolcage.Policy.Ranges.{IsEnvName, validate_env_key_iff}
use toolcage.Policy.Mounts.{IsGuestPath, IsMountOf, build_mount_iff}

abbrev pub HasEnvNames : List (Text × Text) → Type 0
HasEnvNames env = All (λ e. IsEnvName e.0) env

-- The names are valid and in order, and a lookup tries the entry's variables before the base's.
pub record IsEnvMerge (env base merged : TreeMap Text) : Type 0 where
  pub sorted : IsSorted merged
  pub names : HasEnvNames merged
  pub lookup : (k : Text) → get k merged ≡ or_else (get k env) (get k base)

pub merge_env_lem :
    (env base merged : TreeMap Text)
    → IsSorted env
    → IsSorted base
    → HasEnvNames base
    → merge_env env base ≡ ok merged
    → IsEnvMerge env base merged
unfolding merge_env get
merge_env_lem [] base merged se sb nb e = record {
  sorted = ground arith;
  names = ground arith;
  lookup = λ k. ground arith;
}
merge_env_lem ((k, v) ∷ env) base merged (below, se) sb nb e =
    let (_, valid, rest) =
      >>=-eq-ok (validate_env_key k) (λ _. merge_env env (insert k v base)) e in
    let name : IsEnvName k = (validate_env_key_iff k).0 valid in
    let ih =
      merge_env_lem env (insert k v base) merged se (insert-IsSorted k v base sb)
        (All-insert (λ a. IsEnvName a.0) k v base name nb) rest in
    record {
      sorted = ih.sorted;
      names = ih.names;
      lookup = λ j. ground (
        arith,
        ih.lookup j,
        get-insert k j v base,
        text_eq_iff k j,
        ap (λ t. get t env) {x = k} {y = j},
        get-IsBelow k env below,
      );
    }

abbrev pub by_path : List Mount → TreeMap Mount
by_path mounts = map (λ m. (m.guest_path, m)) mounts

-- The mount that a grant has at a guest path.
abbrev pub mount_at : Text → List Mount → Option Mount
mount_at path mounts = get path (by_path mounts)

abbrev pub IsKeyed : TreeMap Mount → Type 0
IsKeyed m = All (λ e. e.1.guest_path ≡ e.0) m

pub by_path-into_values : (m : TreeMap Mount) → IsKeyed m → by_path (into_values m) ≡ m
by_path-into_values [] h = refl
by_path-into_values ((p, a) ∷ m) (e, h) =
    ap₂ {C = TreeMap Mount} (λ q t. (q, a) ∷ t) e (by_path-into_values m h)

pub by_path-IsKeyed : (mounts : List Mount) → IsKeyed (by_path mounts)
by_path-IsKeyed [] = tt
by_path-IsKeyed (a ∷ mounts) = (refl, by_path-IsKeyed mounts)

abbrev pub HasGuestPaths : TreeMap Mount → Type 0
HasGuestPaths m = All (λ e. IsGuestPath e.0) m

-- The paths are valid and in order; an entry's mounts replace the base's at the same path.
pub record IsMountMerge (base_dir : Text) (fs : TreeMap RawMount) (base merged : TreeMap Mount)
    : Type 0 where
  pub sorted : IsSorted merged
  pub keyed : IsKeyed merged
  pub paths : HasGuestPaths merged
  pub kept : (p : Text) → get p fs ≡ none → get p merged ≡ get p base
  pub mounted :
      (p : Text) (raw : RawMount)
      → get p fs ≡ some raw
      → (m : Mount) × IsMountOf p raw base_dir m × (get p merged ≡ some m)

module _ (base_dir : Text) where
  IsMountMerge-cons :
      (q : Text) (r : RawMount) (a : Mount) (fs : TreeMap RawMount) (base merged : TreeMap Mount)
      → IsBelow q fs
      → IsMountOf q r base_dir a
      → IsMountMerge base_dir fs (insert q a base) merged
      → IsMountMerge base_dir ((q, r) ∷ fs) base merged
  unfolding get
  IsMountMerge-cons q r a fs base merged below new rest = record {
    sorted = rest.sorted;
    keyed = rest.keyed;
    paths = rest.paths;
    kept = λ p h. ground (arith, rest.kept p, get-insert q p a base);
    mounted = λ p raw h. elim (Bool-cases (text_eq q p)) [
      | inl same ↦
          let e : q ≡ p = (text_eq_iff q p).0 same in
          let er : r ≡ raw = cc (rw same at h) in
          (
            a,
            rw (← e, ← er) new,
            ground (
              arith,
              rest.kept p,
              get-insert q p a base,
              get-IsBelow q fs below,
              ap (λ t. get t fs) e,
            ),
          )
      | inr other ↦ rest.mounted p raw (rw other at h)
    ];
  }

  pub merge_mounts_lem :
      (fs : TreeMap RawMount) (base merged : TreeMap Mount)
      → IsSorted fs
      → IsSorted base
      → IsKeyed base
      → HasGuestPaths base
      → merge_mounts base_dir fs base ≡ ok merged
      → IsMountMerge base_dir fs base merged
  unfolding merge_mounts get
  merge_mounts_lem [] base merged sf sb kb pb e = record {
    sorted = ground arith;
    keyed = ground arith;
    paths = ground arith;
    kept = λ p h. ground arith;
    mounted = λ p raw h. cc;
  }
  merge_mounts_lem ((q, r) ∷ fs) base merged (below, sf) sb kb pb e =
      let (a, built, rest) = >>=-eq-ok (build_mount q r base_dir) _ e in
      let new = (build_mount_iff q r base_dir a).0 built in
      IsMountMerge-cons q r a fs base merged below new (
        merge_mounts_lem fs (insert q a base) merged sf (insert-IsSorted q a base sb)
          (All-insert (λ b. b.1.guest_path ≡ b.0) q a base new.path_is kb)
          (All-insert (λ b. IsGuestPath b.0) q a base new.path_valid pb) rest)
