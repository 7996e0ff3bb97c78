-- ===== src/Bits.antt =====
-- `&`, `|` and `^` on words as arithmetic: fields that do not overlap, low masks, and the words
-- that `|` and `^` send to zero.
use Prim.Native.Nat.{
  ℕ, zero, suc, ◌+◌, ◌-◌, ◌*◌, ◌/◌, ◌%◌, ◌^◌, ◌≤◌, ◌<◌, min, max, digits, differ, bitwise, bit_and,
  bit_or, bit_xor, bit_and-bitwise, bit_or-bitwise, bit_xor-bitwise,
}
use native.Mathlib.Nat.{pow-suc}
use toolcage.Prelude.{◌≡◌, refl, ap, ◌∙◌, arith}

-- A number has no more digits than its own value, so any larger count of digits gives the same.
digits_enough :
    (tail : ℕ → ℕ) (op : ℕ → ℕ → ℕ) (extra n a b : ℕ)
    → a ≤ n
    → digits tail op (n + extra) a b ≡ digits tail op n a b
digits_enough tail op zero n a b h = ap (λ k. digits tail op k a b) (omega arith)
digits_enough tail op (suc extra) zero zero b h =
    ap (λ k. digits tail op k 0 b) {x = 0 + suc extra} {y = suc extra} (omega arith)
digits_enough tail op (suc extra) zero (suc a) b h = absurd (omega arith)
digits_enough tail op (suc extra) (suc n) zero b h =
    ap (λ k. digits tail op k 0 b) {x = suc n + suc extra} {y = suc (n + suc extra)} (omega arith)
digits_enough tail op (suc extra) (suc n) (suc a) b h =
    ap (λ k. digits tail op k (suc a) b) {x = suc n + suc extra} {y = suc (n + suc extra)}
      (omega arith)
    ∙ ap (λ t. t * 2 + op (suc a % 2) (b % 2))
        (digits_enough tail op (suc extra) n (suc a / 2) (b / 2) (omega arith))

-- The lowest digit, and the rest.
bitwise_low :
    (tail : ℕ → ℕ) (op : ℕ → ℕ → ℕ) (a b : ℕ)
    → bitwise tail op (suc a) b ≡ bitwise tail op (suc a / 2) (b / 2) * 2 + op (suc a % 2) (b % 2)
bitwise_low tail op a b =
    ap (λ t. t * 2 + op (suc a % 2) (b % 2))
      (ap (λ k. digits tail op k (suc a / 2) (b / 2)) {x = a} {y = suc a / 2 + (a - suc a / 2)}
          (omega arith)
        ∙ digits_enough tail op (a - suc a / 2) (suc a / 2) (suc a / 2) (b / 2) (omega arith))

or_low : (a b : ℕ) → bit_or a b ≡ bit_or (a / 2) (b / 2) * 2 + max (a % 2) (b % 2)
or_low zero b = simp bit_or-bitwise (omega arith)
or_low (suc a) b = simp bit_or-bitwise (bitwise_low (λ y. y) max a b)

and_low : (a b : ℕ) → bit_and a b ≡ bit_and (a / 2) (b / 2) * 2 + min (a % 2) (b % 2)
and_low zero b = simp bit_and-bitwise (omega arith)
and_low (suc a) b = simp bit_and-bitwise (bitwise_low (λ y. 0) min a b)

xor_low : (a b : ℕ) → bit_xor a b ≡ bit_xor (a / 2) (b / 2) * 2 + differ (a % 2) (b % 2)
xor_low zero b = simp bit_xor-bitwise (omega arith)
xor_low (suc a) b = simp bit_xor-bitwise (bitwise_low (λ y. y) differ a b)

and_zero_below : (n a : ℕ) → a ≤ n → bit_and a 0 ≡ 0
and_zero_below n zero h = refl
and_zero_below zero (suc a) h = absurd (omega arith)
and_zero_below (suc n) (suc a) h =
    omega (arith, and_low (suc a) 0, and_zero_below n (suc a / 2) (omega arith))

and_zero : (a : ℕ) → bit_and a 0 ≡ 0
and_zero a = and_zero_below a a (omega arith)

pub and_three : (a : ℕ) → bit_and a 3 ≡ a % 4
and_three a = omega (arith, and_low a 3, and_low (a / 2) 1, and_zero (a / 2 / 2))

pub and_fifteen : (a : ℕ) → bit_and a 15 ≡ a % 16
and_fifteen a = omega (arith, and_low a 15, and_low (a / 2) 7, and_three (a / 2 / 2))

pub and_sixty_three : (a : ℕ) → bit_and a 63 ≡ a % 64
and_sixty_three a = omega (arith, and_low a 63, and_low (a / 2) 31, and_fifteen (a / 2 / 2))

or_zero_below : (n a : ℕ) → a ≤ n → bit_or a 0 ≡ a
or_zero_below n zero h = refl
or_zero_below zero (suc a) h = absurd (omega arith)
or_zero_below (suc n) (suc a) h =
    omega (arith, or_low (suc a) 0, or_zero_below n (suc a / 2) (omega arith))

pub or_zero : (a : ℕ) → bit_or a 0 ≡ a
or_zero a = or_zero_below a a (omega arith)

-- A field behind a shifted one is added to it.
pub or_shifted : (k q r : ℕ) → r < 2 ^ k → bit_or (q * 2 ^ k) r ≡ q * 2 ^ k + r
or_shifted zero q r h = ground (arith, or_zero q)
or_shifted (suc k) q r h = ground (
  arith,
  pow-suc 2 k,
  ap (λ (t : ℕ). q * t) (pow-suc 2 k),
  or_low (q * 2 ^ suc k) r,
  or_shifted k q (r / 2) (omega (arith, pow-suc 2 k)),
)

differ_zero : (x y : ℕ) → differ x y ≡ 0 → x ≡ y
differ_zero zero y h = omega arith
differ_zero (suc x) zero h = absurd (omega arith)
differ_zero (suc x) (suc y) h = ap suc (differ_zero x y h)

differ_self : (x : ℕ) → differ x x ≡ 0
differ_self zero = refl
differ_self (suc x) = differ_self x

xor_zero_below : (n a b : ℕ) → a ≤ n → bit_xor a b ≡ 0 → a ≡ b
xor_zero_below n zero b h e = omega (arith, bit_xor-bitwise 0 b)
xor_zero_below zero (suc a) b h e = absurd (omega arith)
xor_zero_below (suc n) (suc a) b h e =
    let low = xor_low (suc a) b in
    omega (
      arith,
      xor_zero_below n (suc a / 2) (b / 2) (omega arith) (omega arith),
      differ_zero (suc a % 2) (b % 2) (omega arith),
    )

-- `x ^ y` is zero only where the two are equal.
pub xor_zero : (a b : ℕ) → bit_xor a b ≡ 0 → a ≡ b
xor_zero a b = xor_zero_below a a b (omega arith)

xor_self_below : (n a : ℕ) → a ≤ n → bit_xor a a ≡ 0
xor_self_below n zero h = refl
xor_self_below zero (suc a) h = absurd (omega arith)
xor_self_below (suc n) (suc a) h = omega (
  arith,
  xor_low (suc a) (suc a),
  differ_self (suc a % 2),
  xor_self_below n (suc a / 2) (omega arith),
)

pub xor_self : (a : ℕ) → bit_xor a a ≡ 0
xor_self a = xor_self_below a a (omega arith)

or_eq_zero_below : (n a b : ℕ) → a ≤ n → bit_or a b ≡ 0 → (a ≡ 0) × (b ≡ 0)
or_eq_zero_below n zero b h e = omega (arith, bit_or-bitwise 0 b)
or_eq_zero_below zero (suc a) b h e = absurd (omega arith)
or_eq_zero_below (suc n) (suc a) b h e =
    let low = or_low (suc a) b in
    absurd (omega (arith, or_eq_zero_below n (suc a / 2) (b / 2) (omega arith) (omega arith)))

-- `x | y` is zero only where both are.
pub or_eq_zero : (a b : ℕ) → bit_or a b ≡ 0 → (a ≡ 0) × (b ≡ 0)
or_eq_zero a b = or_eq_zero_below a a b (omega arith)
