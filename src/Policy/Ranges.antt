-- ===== src/Policy/Ranges.antt =====
-- What `validate_limits` and `validate_env_key` of policy.rs accept.
use toolcage.Prelude.{ℕ, ◌≤◌, Text, ◌≡◌, ◌≢◌, refl, ◌↔◌, false, [], ◌∷◌, All, ok, arith}
use toolcage.Policy.{max_timeout_ms, max_memory_max_mb, max_output_max_kb, min_fuel, Limits}
use toolcage.Policy.Build.{validate_limits, validate_env_key, contains_byte}

-- The ranges that the error messages name.
pub record LimitsInRange (l : Limits) : Type 0 where
  pub timeout_in : (1 ≤ l.timeout_ms) × (l.timeout_ms ≤ max_timeout_ms)
  pub fuel_in : min_fuel ≤ l.fuel
  pub memory_in : (1 ≤ l.memory_max_mb) × (l.memory_max_mb ≤ max_memory_max_mb)
  pub output_in : (1 ≤ l.output_max_kb) × (l.output_max_kb ≤ max_output_max_kb)

-- `validate_limits` accepts exactly the limits whose four budgets are in range.
pub validate_limits_iff : (l : Limits) → (validate_limits l ≡ ok tt) ↔ LimitsInRange l
unfolding validate_limits
validate_limits_iff l = ground arith

-- No byte of the text is `c`.
abbrev pub Lacks : ℕ → Text → Type 0
Lacks c t = All (λ b. b ≢ c) t

Lacks-of_contains_byte : (c : ℕ) (t : Text) → contains_byte c t ≡ false → Lacks c t
Lacks-of_contains_byte c [] h = tt
Lacks-of_contains_byte c (b ∷ t) h = ground (arith, Lacks-of_contains_byte c t)

contains_byte_of_Lacks : (c : ℕ) (t : Text) → Lacks c t → contains_byte c t ≡ false
contains_byte_of_Lacks c [] h = refl
contains_byte_of_Lacks c (b ∷ t) (p, h) = ground (arith, contains_byte_of_Lacks c t h)

-- A name that can stand before the `=` of an environment entry.
abbrev pub IsEnvName : Text → Type 0
IsEnvName k = (k ≢ []) × Lacks b'=' k

pub validate_env_key_iff : (k : Text) → (validate_env_key k ≡ ok tt) ↔ IsEnvName k
unfolding validate_env_key
validate_env_key_iff [] = ground arith
validate_env_key_iff (c ∷ t) =
    ground (arith, Lacks-of_contains_byte b'=' (c ∷ t), contains_byte_of_Lacks b'=' (c ∷ t))
