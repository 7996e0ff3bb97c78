-- ===== src/Prelude/Splits.antt =====
-- `split(sep)` on a string or a slice, for a separator of one byte.
use Prim.Native.Nat.{ℕ}
use mathlib.Core.Path.{◌≡◌}
use mathlib.Core.Logic.{◌≢◌}
use mathlib.Core.List.{List, [], ◌∷◌, ◌++◌}
use native.Mathlib.Omega.{arith}
use toolcage.Prelude.Tests.{◌==◌, if◌then◌else◌, ==_refl}
use toolcage.Prelude.Lists.{All}

abbrev push_front : ℕ → List (List ℕ) → List (List ℕ)
push_front x [] = (x ∷ []) ∷ []
push_front x (s ∷ ss) = (x ∷ s) ∷ ss

unfoldable pub split_on : ℕ → List ℕ → List (List ℕ)
split_on sep [] = [] ∷ []
split_on sep (x ∷ xs) =
    let rest = split_on sep xs in if x == sep then [] ∷ rest else push_front x rest

-- A text without the separator, and one more piece behind it.
pub split_on-append :
    (sep : ℕ) (line rest : List ℕ)
    → All (λ c. c ≢ sep) line
    → split_on sep (line ++ sep ∷ rest) ≡ line ∷ split_on sep rest
unfolding split_on
split_on-append sep [] rest h = ground (arith, ==_refl sep)
split_on-append sep (x ∷ xs) rest (p, h) = ground (arith, split_on-append sep xs rest h)
