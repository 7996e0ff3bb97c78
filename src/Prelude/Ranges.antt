-- ===== src/Prelude/Ranges.antt =====
-- A Boolean property of all numbers in a small range, checked by evaluation.
use Prim.Native.Nat.{ℕ, zero, suc, ◌<◌}
use mathlib.Core.Path.{◌≡◌, ap}
use mathlib.Core.Logic.{inl, inr}
use mathlib.Core.Bool.{Bool, true}
use mathlib.Core.Option.{Option, none, some}
use native.Mathlib.Omega.{arith}
use toolcage.Prelude.Tests.{if◌then◌else◌, Bool-cases}

-- The largest number below the bound without the property.
unfoldable pub counterexample : (ℕ → Bool) → ℕ → Option ℕ
counterexample p zero = none
counterexample p (suc n) = if p n then counterexample p n else some n

pub no_counterexample : (p : ℕ → Bool) (n v : ℕ) → counterexample p n ≡ none → v < n → p v ≡ true
unfolding counterexample
no_counterexample p zero v found lt = absurd (omega arith)
no_counterexample p (suc n) v found lt = elim (Bool-cases (p n)) [
  | inl e ↦ ground (arith, e, found, no_counterexample p n v, ap p {x = v} {y = n})
  | inr e ↦ absurd (ground (arith, e, found))
]
