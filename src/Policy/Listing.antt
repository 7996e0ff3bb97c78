-- ===== src/Policy/Listing.antt =====
-- `listed_tools` of policy.rs against `is_listed` and `visible`.
use toolcage.Prelude.{
  Text, text_eq_iff, text_eq_refl, ◌≡◌, ap, true, Bool, List, [], ◌∷◌, All, map, Option, none, some,
  ok, ◌∙◌, arith, refl, Option-cases, inl, inr, if◌then◌else◌,
}
use toolcage.TreeMap.{TreeMap, get, contains_key}
use toolcage.TreeMap.Order.{IsSorted, IsBelow, get-IsBelow, get-nil}
use toolcage.Policy.{RawPolicy, ToolRule, Policy}
use toolcage.Policy.Build.{from_raw}
use toolcage.Policy.Decide.{decide, visible, is_listed, listed_tools, allows}
use toolcage.Policy.Decisions.{RawIsSorted, IsPolicyOf, from_raw_lem}

abbrev pub IsRightFlag : Policy → Text × Bool → Type 0
IsRightFlag p e = (is_listed p e.0 ≡ true) × (visible p e.0 ≡ e.1)

visible-rule :
    (p : Policy) (n : Text) (r : ToolRule) → get n p.tools ≡ some r → IsRightFlag p (n, allows r)
unfolding is_listed visible decide
visible-rule p n ToolRule.deny e = (ground arith, ground arith)
visible-rule p n (ToolRule.allow g) e = (ground arith, ground arith)

get-below :
    (n m : Text) (r r' : ToolRule) (rest : TreeMap ToolRule)
    → IsBelow n rest
    → get m rest ≡ some r'
    → get m ((n, r) ∷ rest) ≡ some r'
unfolding get
get-below n m r r' rest below h =
    ground (arith, get-IsBelow n rest below, text_eq_iff n m, ap (λ t. get t rest) {x = n} {y = m})

get_head : (n : Text) (r : ToolRule) (rest : TreeMap ToolRule) → get n ((n, r) ∷ rest) ≡ some r
unfolding get
get_head n r rest = ground (arith, text_eq_refl n)

listed_tools_at :
    (p : Policy) (rest : TreeMap ToolRule)
    → IsSorted rest
    → ((name : Text) (r : ToolRule) → get name rest ≡ some r → get name p.tools ≡ some r)
    → All (IsRightFlag p) (map (λ e. (e.0, allows e.1)) rest)
listed_tools_at p [] s h = tt
listed_tools_at p ((n, r) ∷ rest) (below, s) h = (
  visible-rule p n r (h n r (get_head n r rest)),
  listed_tools_at p rest s (λ m r' e. h m r' (get-below n m r r' rest below e)),
)

flags : TreeMap ToolRule → List (Text × Bool)
flags tools = map (λ e. (e.0, allows e.1)) tools

flags-IsBelow : (n : Text) (rest : TreeMap ToolRule) → IsBelow n rest → IsBelow n (flags rest)
unfolding flags
flags-IsBelow n [] h = tt
flags-IsBelow n ((m, r) ∷ rest) (q, h) = (q, flags-IsBelow n rest h)

flags-IsSorted : (rest : TreeMap ToolRule) → IsSorted rest → IsSorted (flags rest)
unfolding flags
flags-IsSorted [] h = tt
flags-IsSorted ((n, r) ∷ rest) (below, s) = (flags-IsBelow n rest below, flags-IsSorted rest s)

get-flags :
    (name : Text) (rest : TreeMap ToolRule)
    → get name (flags rest) ≡ elim (get name rest) [ none ↦ none | some r ↦ some (allows r) ]
unfolding flags get
get-flags name [] = refl
get-flags name ((n, r) ∷ rest) = ground (arith, get-flags name rest)

-- The flag that a listing has for a tool.
abbrev pub flag_of : Policy → Text → Option Bool
flag_of p name = if is_listed p name then some (visible p name) else none

flags-flag_of : (p : Policy) (name : Text) → get name (flags p.tools) ≡ flag_of p name
unfolding is_listed visible decide
flags-flag_of p name = elim (Option-cases (get name p.tools)) [
  | inl e ↦ ground (arith, get-flags name p.tools)
  | inr (ToolRule.deny, e) ↦ ground (arith, get-flags name p.tools)
  | inr (ToolRule.allow g, e) ↦ ground (arith, get-flags name p.tools)
]

listed-from_file :
    (raw : RawPolicy) (base_dir : Text) (p : Policy) (name : Text)
    → IsPolicyOf raw base_dir p
    → is_listed p name ≡ contains_key name raw.tools
unfolding is_listed
listed-from_file raw base_dir p name s = elim (Option-cases (get name raw.tools)) [
  | inl e ↦ ground (arith, s.rules.kept name e ∙ get-nil name)
  | inr (entry, e) ↦ let (r, is, at) = s.rules.ruled name entry e in ground arith
]

-- `listed_tools` agrees with the file and with `is_listed` and `visible`: it gives names in
-- ascending order, each once; each name that it gives is listed, and is visible just when its flag
-- is set; and looking up any name in it finds the tool's visibility if the tool is listed, and
-- nothing if it is not. The listed tools are those with an entry in the file.
pub listed_tools-visible :
    (raw : RawPolicy) (base_dir : Text) (source : Option Text) (p : Policy) (name : Text)
    → RawIsSorted raw
    → from_raw raw base_dir source ≡ ok p
    → IsSorted (listed_tools p)
      × All (IsRightFlag p) (listed_tools p)
      × (get name (listed_tools p) ≡ flag_of p name)
      × (is_listed p name ≡ contains_key name raw.tools)
unfolding listed_tools flags
listed_tools-visible raw base_dir source p name s e =
    let is = from_raw_lem raw base_dir source p s e in
    let sorted = is.rules.sorted in
    (
      flags-IsSorted p.tools sorted,
      listed_tools_at p p.tools sorted (λ n r h. h),
      flags-flag_of p name,
      listed-from_file raw base_dir p name is,
    )
