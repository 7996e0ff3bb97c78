-- ===== src/Paginate/Base64/Groups.antt =====
-- Four characters are three bytes: the steps of `b64url_decode`'s loop.
use mathlib.Core.Option
use toolcage.Prelude.{
  ℕ, ◌+◌, ◌*◌, ◌/◌, ◌%◌, ◌<◌, ◌^◌, ◌≡◌, ap, ◌∙◌, Bytes, Text, ◌∷◌, Option, some, u8, u32, bit_or,
  ◌<<<◌, arith,
}
use toolcage.Bits.{or_shifted}
use toolcage.Paginate.Base64.{b64url_val, decode_from}

-- The accumulator after one more sextet.
abbrev pub next : ℕ → ℕ → ℕ
next acc v = u32 (acc * 64) + v

next-eq : (acc v : ℕ) → v < 64 → bit_or (acc <<< 6) v ≡ next acc v
next-eq acc v h =
    ap (λ t. bit_or t v) {x = acc <<< 6} {y = acc % 2 ^ 26 * 2 ^ 6} (omega arith)
    ∙ omega (arith, or_shifted 6 (acc % 2 ^ 26) v h)

-- Bytes pushed before what the rest of the text gives.
abbrev pub push : ℕ → Option Bytes → Option Bytes
push b o = Option.map (λ out. b ∷ out) o

module _ (c v : ℕ) (is : b64url_val c ≡ some v) (small : v < 64) where
  step_none : (cs : Text) (acc : ℕ) → decode_from (c ∷ cs) acc 0 ≡ decode_from cs (next acc v) 6
  unfolding decode_from
  step_none cs acc = rw (is, decode_from) (ap (λ a. decode_from cs a 6) (next-eq acc v small))

  step_six :
      (cs : Text) (acc : ℕ)
      → decode_from (c ∷ cs) acc 6 ≡ push (u8 (next acc v / 16)) (decode_from cs (next acc v) 4)
  unfolding decode_from
  step_six cs acc =
      rw (is, decode_from) (ap (λ a. push (u8 (a / 16)) (decode_from cs a 4)) (next-eq acc v small))

  step_four :
      (cs : Text) (acc : ℕ)
      → decode_from (c ∷ cs) acc 4 ≡ push (u8 (next acc v / 4)) (decode_from cs (next acc v) 2)
  unfolding decode_from
  step_four cs acc =
      rw (is, decode_from) (ap (λ a. push (u8 (a / 4)) (decode_from cs a 2)) (next-eq acc v small))

  step_two :
      (cs : Text) (acc : ℕ)
      → decode_from (c ∷ cs) acc 2 ≡ push (u8 (next acc v)) (decode_from cs (next acc v) 0)
  unfolding decode_from
  step_two cs acc =
      rw (is, decode_from)
        (ap (λ a. push (u8 (a / 1)) (decode_from cs a 0)) (next-eq acc v small)
          ∙ ap (λ b. push b (decode_from cs (next acc v) 0)) {x = u8 (next acc v / 1)}
              (omega arith))

abbrev pub after_four : ℕ → ℕ → ℕ → ℕ → ℕ → ℕ
after_four acc v0 v1 v2 v3 = next (next (next (next acc v0) v1) v2) v3

-- The three bytes of four sextets.
abbrev pub byte0 : ℕ → ℕ → ℕ
byte0 v0 v1 = v0 * 4 + v1 / 16

abbrev pub byte1 : ℕ → ℕ → ℕ
byte1 v1 v2 = v1 % 16 * 16 + v2 / 4

abbrev pub byte2 : ℕ → ℕ → ℕ
byte2 v2 v3 = v2 % 4 * 64 + v3

module _ (acc c0 c1 v0 v1 : ℕ) (is0 : b64url_val c0 ≡ some v0) (is1 : b64url_val c1 ≡ some v1)
    (small0 : v0 < 64) (small1 : v1 < 64) where
  pub two_chars :
      (cs : Text)
      → decode_from (c0 ∷ c1 ∷ cs) acc 0
        ≡ push (byte0 v0 v1) (decode_from cs (next (next acc v0) v1) 4)
  two_chars cs =
      step_none c0 v0 is0 small0 (c1 ∷ cs) acc
      ∙ step_six c1 v1 is1 small1 cs (next acc v0)
      ∙ ap (λ b. push b (decode_from cs (next (next acc v0) v1) 4)) (omega arith)

  module _ (c2 v2 : ℕ) (is2 : b64url_val c2 ≡ some v2) (small2 : v2 < 64) where
    pub three_chars :
        (cs : Text)
        → decode_from (c0 ∷ c1 ∷ c2 ∷ cs) acc 0
          ≡ push
              (byte0 v0 v1)
              (push (byte1 v1 v2) (decode_from cs (next (next (next acc v0) v1) v2) 2))
    three_chars cs =
        two_chars (c2 ∷ cs)
        ∙ ap (push (byte0 v0 v1)) (
            step_four c2 v2 is2 small2 cs (next (next acc v0) v1)
            ∙ ap (λ b. push b (decode_from cs (next (next (next acc v0) v1) v2) 2)) (omega arith))

    module _ (c3 v3 : ℕ) (is3 : b64url_val c3 ≡ some v3) (small3 : v3 < 64) where
      pub four_chars :
          (cs : Text)
          → decode_from (c0 ∷ c1 ∷ c2 ∷ c3 ∷ cs) acc 0
            ≡ push (byte0 v0 v1) (
                push
                  (byte1 v1 v2)
                  (push (byte2 v2 v3) (decode_from cs (after_four acc v0 v1 v2 v3) 0)))
      four_chars cs =
          three_chars (c3 ∷ cs)
          ∙ ap (λ o. push (byte0 v0 v1) (push (byte1 v1 v2) o))
              (step_two c3 v3 is3 small3 cs (next (next (next acc v0) v1) v2)
                ∙ ap (λ b. push b (decode_from cs (after_four acc v0 v1 v2 v3) 0)) (omega arith))
