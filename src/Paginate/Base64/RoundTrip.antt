-- ===== src/Paginate/Base64/RoundTrip.antt =====
-- `b64url_decode` undoes `b64url_encode`, and accepts no other text for the same bytes.
use toolcage.Prelude.{
  ℕ, ◌+◌, ◌*◌, ◌/◌, ◌%◌, ◌<◌, ◌^◌, ◌≡◌, ◌≢◌, refl, ap, ap₂, ◌∙◌, Bytes, IsBytes, [], ◌∷◌, Option,
  none, some, length, bit_or, ◌<<<◌, ◌>>>◌, ◌==◌, if◌then◌else◌, arith,
}
use toolcage.Bits.{or_shifted, and_fifteen, and_three}
use toolcage.Paginate.Base64.{
  letter, triple, b64url_encode, b64url_val, leftover_ok, decode_from, b64url_decode,
}
use toolcage.Paginate.Base64.Letters.{letter-eq, val-letter_at}
use toolcage.Paginate.Base64.Groups.{next, push, byte0, byte1, two_chars, three_chars, four_chars}

pub triple-eq :
    (b0 b1 b2 : ℕ) → b0 < 256 → b1 < 256 → b2 < 256 → triple b0 b1 b2 ≡ b0 * 65536 + b1 * 256 + b2
triple-eq b0 b1 b2 h0 h1 h2 =
    ap₂ (λ s t. bit_or (bit_or s t) b2) (let e : b0 <<< 16 ≡ b0 * 2 ^ 16 = omega arith in e)
      (let e : b1 <<< 8 ≡ b1 * 2 ^ 8 = omega arith in e)
    ∙ ap (λ s. bit_or s b2)
        (or_shifted 16 b0 (b1 * 2 ^ 8) (omega arith)
          ∙ (let e : b0 * 2 ^ 16 + b1 * 2 ^ 8 ≡ (b0 * 256 + b1) * 2 ^ 8 = omega arith in e))
    ∙ or_shifted 8 (b0 * 256 + b1) b2 h2
    ∙ omega arith

pub val-letter : (n : ℕ) → b64url_val (letter n) ≡ some (n % 64)
val-letter n = ap b64url_val (letter-eq n) ∙ val-letter_at (n % 64) (omega arith)

leftover_four : (acc : ℕ) → leftover_ok acc 4 ≡ (acc % 16 == 0)
unfolding leftover_ok
leftover_four acc = ground (arith, and_fifteen acc)

leftover_two : (acc : ℕ) → leftover_ok acc 2 ≡ (acc % 4 == 0)
unfolding leftover_ok
leftover_two acc = ground (arith, and_three acc)

pub nil_four : (acc : ℕ) → decode_from [] acc 4 ≡ (if acc % 16 == 0 then some [] else none)
unfolding decode_from
nil_four acc = ap (λ b. if b then some [] else none) (leftover_four acc)

pub nil_two : (acc : ℕ) → decode_from [] acc 2 ≡ (if acc % 4 == 0 then some [] else none)
unfolding decode_from
nil_two acc = ap (λ b. if b then some [] else none) (leftover_two acc)

pub nil_zero : (acc : ℕ) → decode_from [] acc 0 ≡ some []
unfolding decode_from leftover_ok
nil_zero acc = refl

-- A text that ends behind two characters, or behind three.
end_two :
    (acc v0 v1 b0 : ℕ)
    → byte0 v0 v1 ≡ b0
    → v1 % 16 ≡ 0
    → push (byte0 v0 v1) (decode_from [] (next (next acc v0) v1) 4) ≡ some (b0 ∷ [])
end_two acc v0 v1 b0 e z = ground (arith, nil_four (next (next acc v0) v1))

end_three :
    (acc v0 v1 v2 b0 b1 : ℕ)
    → byte0 v0 v1 ≡ b0
    → byte1 v1 v2 ≡ b1
    → v2 % 4 ≡ 0
    → push (byte0 v0 v1) (push (byte1 v1 v2) (decode_from [] (next (next (next acc v0) v1) v2) 2))
      ≡ some (b0 ∷ b1 ∷ [])
end_three acc v0 v1 v2 b0 b1 e f z = ground (arith, nil_two (next (next (next acc v0) v1) v2))

push_three :
    (x y z b0 b1 b2 : ℕ) (o : Option Bytes) (bs : Bytes)
    → x ≡ b0
    → y ≡ b1
    → z ≡ b2
    → o ≡ some bs
    → push x (push y (push z o)) ≡ some (b0 ∷ b1 ∷ b2 ∷ bs)
push_three x y z b0 b1 b2 o bs p q r e = rw (p, q, r, e) refl

decode_from-encode :
    (bs : Bytes) (acc : ℕ) → IsBytes bs → decode_from (b64url_encode bs) acc 0 ≡ some bs
unfolding b64url_encode
decode_from-encode [] acc h = nil_zero acc
decode_from-encode (b0 ∷ []) acc (h0, _) =
    let n = triple b0 0 0 in
    let e : n ≡ b0 * 65536 + 0 * 256 + 0 = triple-eq b0 0 0 h0 (omega arith) (omega arith) in
    two_chars acc (letter (n >>> 18)) (letter (n >>> 12)) (n / 2 ^ 18 % 64) (n / 2 ^ 12 % 64)
      (val-letter _) (val-letter _) (omega arith) (omega arith) []
    ∙ end_two acc (n / 2 ^ 18 % 64) (n / 2 ^ 12 % 64) b0 (omega arith) (omega arith)
decode_from-encode (b0 ∷ b1 ∷ []) acc (h0, (h1, _)) =
    let n = triple b0 b1 0 in
    let e : n ≡ b0 * 65536 + b1 * 256 + 0 = triple-eq b0 b1 0 h0 h1 (omega arith) in
    three_chars acc (letter (n >>> 18)) (letter (n >>> 12)) (n / 2 ^ 18 % 64) (n / 2 ^ 12 % 64)
      (val-letter _) (val-letter _) (omega arith) (omega arith) (letter (n >>> 6)) (n / 2 ^ 6 % 64)
      (val-letter _) (omega arith) []
    ∙ end_three acc (n / 2 ^ 18 % 64) (n / 2 ^ 12 % 64) (n / 2 ^ 6 % 64) b0 b1 (omega arith)
        (omega arith) (omega arith)
decode_from-encode (b0 ∷ b1 ∷ b2 ∷ rest) acc (h0, (h1, (h2, h))) =
    let n = triple b0 b1 b2 in
    let e : n ≡ b0 * 65536 + b1 * 256 + b2 = triple-eq b0 b1 b2 h0 h1 h2 in
    four_chars acc (letter (n >>> 18)) (letter (n >>> 12)) (n / 2 ^ 18 % 64) (n / 2 ^ 12 % 64)
      (val-letter _) (val-letter _) (omega arith) (omega arith) (letter (n >>> 6)) (n / 2 ^ 6 % 64)
      (val-letter _) (omega arith) (letter n) (n % 64) (val-letter _) (omega arith)
      (b64url_encode rest)
    ∙ push_three _ _ _ b0 b1 b2 _ rest (omega arith) (omega arith) (omega arith)
        (decode_from-encode rest _ h)

length-encode : (bs : Bytes) → length (b64url_encode bs) % 4 ≢ 1
unfolding b64url_encode
length-encode [] = omega arith
length-encode (b0 ∷ []) = omega arith
length-encode (b0 ∷ b1 ∷ []) = omega arith
length-encode (b0 ∷ b1 ∷ b2 ∷ rest) = omega (arith, length-encode rest)

-- Decoding an encoded byte string gives the bytes back.
pub b64url_decode-encode : (bs : Bytes) → IsBytes bs → b64url_decode (b64url_encode bs) ≡ some bs
unfolding b64url_decode
b64url_decode-encode bs h = ground (arith, length-encode bs, decode_from-encode bs 0 h)
