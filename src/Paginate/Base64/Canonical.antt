-- ===== src/Paginate/Base64/Canonical.antt =====
-- `b64url_decode` accepts only canonical texts.
use toolcage.Prelude.{
  ℕ, ◌+◌, ◌-◌, ◌*◌, ◌%◌, ◌<◌, ◌≡◌, ◌≢◌, refl, sym, ap, ap₂, ◌∙◌, Bytes, IsBytes, Text, [], ◌∷◌,
  Option, none, some, u8, All, length, leb, bit_or, ◌<<<◌, ◌>>>◌, ◌==◌, Bool-cases, Option-cases,
  inl, inr, arith, subst,
}
use toolcage.Paginate.Base64.{letter, triple, b64url_encode, b64url_val, decode_from, b64url_decode}
use toolcage.Paginate.Base64.Letters.{letter_at, letter-eq, letter_at-val}
use toolcage.Paginate.Base64.Groups.{
  next, after_four, push, byte0, byte1, byte2, two_chars, three_chars, four_chars,
}
use toolcage.Paginate.Base64.RoundTrip.{triple-eq, nil_four, nil_two, nil_zero}

push-some :
    (b : ℕ) (o : Option Bytes) {bs : Bytes}
    → push b o ≡ some bs
    → (rest : Bytes) × (o ≡ some rest) × (b ∷ rest ≡ bs)
push-some b none h = cc
push-some b (some rest) h = (rest, refl, cc)

-- A character that stands for a sextet.
abbrev IsLetter : ℕ → Type 0
IsLetter c = (v : ℕ) × (b64url_val c ≡ some v) × (v < 64) × (letter_at v ≡ c)

is_letter : (c v : ℕ) → b64url_val c ≡ some v → IsLetter c
is_letter c v h = (v, h, (letter_at-val c v h).0, (letter_at-val c v h).1)

-- The loop ends without a result at any other character.
letters_of_some :
    (cs : Text) (acc nbits : ℕ) {bs : Bytes} → decode_from cs acc nbits ≡ some bs → All IsLetter cs
unfolding decode_from
letters_of_some [] acc nbits h = tt
letters_of_some (c ∷ cs) acc nbits {bs} h = elim (Option-cases (b64url_val c)) [
  | inl bad ↦ cc (rw (bad, decode_from) at h)
  | inr (v, good) ↦
      let acc' = bit_or (acc <<< 6) v in
      let at_v = rw (good, decode_from) at h in
      elim (Bool-cases (leb 8 (nbits + 6))) [
        | inl full ↦
            let (rest, found, _) =
              push-some (u8 (acc' >>> (nbits + 6 - 8))) (decode_from cs acc' (nbits + 6 - 8))
                {bs = bs} (rw full at at_v) in
            (is_letter c v good, letters_of_some cs acc' (nbits + 6 - 8) found)
        | inr part ↦
            (is_letter c v good, letters_of_some cs acc' (nbits + 6) {bs = bs} (rw part at at_v))
      ]
]

letter-eq_at : (n v : ℕ) → n % 64 ≡ v → letter n ≡ letter_at v
letter-eq_at n v e = letter-eq n ∙ ap letter_at e

encode_two :
    (v0 v1 c0 c1 : ℕ)
    → v0 < 64
    → v1 < 64
    → v1 % 16 ≡ 0
    → letter_at v0 ≡ c0
    → letter_at v1 ≡ c1
    → b64url_encode (byte0 v0 v1 ∷ []) ≡ c0 ∷ c1 ∷ []
unfolding b64url_encode
encode_two v0 v1 c0 c1 h0 h1 z e0 e1 =
    let n = triple (byte0 v0 v1) 0 0 in
    let e : n ≡ byte0 v0 v1 * 65536 + 0 * 256 + 0 =
      triple-eq (byte0 v0 v1) 0 0 (omega arith) (omega arith) (omega arith) in
    ap₂ (λ a b. a ∷ b ∷ []) (letter-eq_at (n >>> 18) v0 (omega arith) ∙ e0)
      (letter-eq_at (n >>> 12) v1 (omega arith) ∙ e1)

encode_three :
    (v0 v1 v2 c0 c1 c2 : ℕ)
    → v0 < 64
    → v1 < 64
    → v2 < 64
    → v2 % 4 ≡ 0
    → letter_at v0 ≡ c0
    → letter_at v1 ≡ c1
    → letter_at v2 ≡ c2
    → b64url_encode (byte0 v0 v1 ∷ byte1 v1 v2 ∷ []) ≡ c0 ∷ c1 ∷ c2 ∷ []
unfolding b64url_encode
encode_three v0 v1 v2 c0 c1 c2 h0 h1 h2 z e0 e1 e2 =
    let n = triple (byte0 v0 v1) (byte1 v1 v2) 0 in
    let e : n ≡ byte0 v0 v1 * 65536 + byte1 v1 v2 * 256 + 0 =
      triple-eq (byte0 v0 v1) (byte1 v1 v2) 0 (omega arith) (omega arith) (omega arith) in
    ap₂ ◌∷◌ (letter-eq_at (n >>> 18) v0 (omega arith) ∙ e0) (
      ap₂ (λ a b. a ∷ b ∷ []) (letter-eq_at (n >>> 12) v1 (omega arith) ∙ e1)
        (letter-eq_at (n >>> 6) v2 (omega arith) ∙ e2))

encode_four :
    (v0 v1 v2 v3 c0 c1 c2 c3 : ℕ) (rest : Bytes) (cs : Text)
    → v0 < 64
    → v1 < 64
    → v2 < 64
    → v3 < 64
    → letter_at v0 ≡ c0
    → letter_at v1 ≡ c1
    → letter_at v2 ≡ c2
    → letter_at v3 ≡ c3
    → b64url_encode rest ≡ cs
    → b64url_encode (byte0 v0 v1 ∷ byte1 v1 v2 ∷ byte2 v2 v3 ∷ rest) ≡ c0 ∷ c1 ∷ c2 ∷ c3 ∷ cs
unfolding b64url_encode
encode_four v0 v1 v2 v3 c0 c1 c2 c3 rest cs h0 h1 h2 h3 e0 e1 e2 e3 ih =
    let n = triple (byte0 v0 v1) (byte1 v1 v2) (byte2 v2 v3) in
    let e : n ≡ byte0 v0 v1 * 65536 + byte1 v1 v2 * 256 + byte2 v2 v3 =
      triple-eq (byte0 v0 v1) (byte1 v1 v2) (byte2 v2 v3) (omega arith) (omega arith)
        (omega arith) in
    ap₂ ◌∷◌ (letter-eq_at (n >>> 18) v0 (omega arith) ∙ e0) (
      ap₂ ◌∷◌ (letter-eq_at (n >>> 12) v1 (omega arith) ∙ e1) (
        ap₂ ◌∷◌ (letter-eq_at (n >>> 6) v2 (omega arith) ∙ e2)
          (ap₂ ◌∷◌ (letter-eq_at n v3 (omega arith) ∙ e3) ih)))

-- The text is the encoding of the bytes.
abbrev IsCode : Text → Bytes → Type 0
IsCode s bs = (b64url_encode bs ≡ s) × IsBytes bs

module _ (c0 c1 v0 v1 acc : ℕ) (small0 : v0 < 64) (small1 : v1 < 64) (e0 : letter_at v0 ≡ c0)
    (e1 : letter_at v1 ≡ c1) where
  IsCode-two :
      (bs : Bytes)
      → push (byte0 v0 v1) (decode_from [] (next (next acc v0) v1) 4) ≡ some bs
      → IsCode (c0 ∷ c1 ∷ []) bs
  IsCode-two bs h =
      let (rest, found, is) = push-some (byte0 v0 v1) _ h in
      let (z, empty) : (v1 % 16 ≡ 0) × (rest ≡ []) =
        ground (arith, nil_four (next (next acc v0) v1)) in
      subst (IsCode (c0 ∷ c1 ∷ [])) (ap (λ r. byte0 v0 v1 ∷ r) (sym empty) ∙ is)
        (encode_two v0 v1 c0 c1 small0 small1 z e0 e1, (omega arith, tt))

  module _ (c2 v2 : ℕ) (small2 : v2 < 64) (e2 : letter_at v2 ≡ c2) where
    IsCode-three :
        (bs : Bytes)
        → push
            (byte0 v0 v1)
            (push (byte1 v1 v2) (decode_from [] (next (next (next acc v0) v1) v2) 2))
          ≡ some bs
        → IsCode (c0 ∷ c1 ∷ c2 ∷ []) bs
    IsCode-three bs h =
        let (r0, found0, is0) = push-some (byte0 v0 v1) _ h in
        let (r1, found1, is1) = push-some (byte1 v1 v2) _ found0 in
        let (z, empty) : (v2 % 4 ≡ 0) × (r1 ≡ []) =
          ground (arith, nil_two (next (next (next acc v0) v1) v2)) in
        subst (IsCode (c0 ∷ c1 ∷ c2 ∷ []))
          (ap (λ r. byte0 v0 v1 ∷ r) (ap (λ r. byte1 v1 v2 ∷ r) (sym empty) ∙ is1) ∙ is0)
          (
            encode_three v0 v1 v2 c0 c1 c2 small0 small1 small2 z e0 e1 e2,
            (omega arith, (omega arith, tt)),
          )

    module _ (c3 v3 : ℕ) (small3 : v3 < 64) (e3 : letter_at v3 ≡ c3) where
      IsCode-four :
          (o : Option Bytes) (cs : Text) (bs : Bytes)
          → ((rest : Bytes) → o ≡ some rest → IsCode cs rest)
          → push (byte0 v0 v1) (push (byte1 v1 v2) (push (byte2 v2 v3) o)) ≡ some bs
          → IsCode (c0 ∷ c1 ∷ c2 ∷ c3 ∷ cs) bs
      IsCode-four o cs bs ih h =
          let (r0, found0, is0) = push-some (byte0 v0 v1) _ h in
          let (r1, found1, is1) = push-some (byte1 v1 v2) _ found0 in
          let (r2, found2, is2) = push-some (byte2 v2 v3) o found1 in
          let (code, bytes) = ih r2 found2 in
          subst (IsCode (c0 ∷ c1 ∷ c2 ∷ c3 ∷ cs))
            (ap (λ r. byte0 v0 v1 ∷ r) (ap (λ r. byte1 v1 v2 ∷ r) is2 ∙ is1) ∙ is0)
            (
              encode_four v0 v1 v2 v3 c0 c1 c2 c3 r2 cs small0 small1 small2 small3 e0 e1 e2 e3
                  code,
              (omega arith, (omega arith, (omega arith, bytes))),
            )

some_eq : {a b : Bytes} → ◌≡◌ {A = Option Bytes} (some a) (some b) → a ≡ b
some_eq e = cc

IsCode-of_decode :
    (s : Text) (acc : ℕ) (bs : Bytes)
    → length s % 4 ≢ 1
    → All IsLetter s
    → decode_from s acc 0 ≡ some bs
    → IsCode s bs
unfolding b64url_encode
IsCode-of_decode [] acc bs ne ls h = subst (IsCode []) (some_eq (sym (nil_zero acc) ∙ h)) (refl, tt)
IsCode-of_decode (c0 ∷ []) acc bs ne ls h = absurd (omega arith)
IsCode-of_decode (c0 ∷ c1 ∷ []) acc bs ne ((v0, i0, s0, e0), ((v1, i1, s1, e1), _)) h =
    IsCode-two c0 c1 v0 v1 acc s0 s1 e0 e1 bs (sym (two_chars acc c0 c1 v0 v1 i0 i1 s0 s1 []) ∙ h)
IsCode-of_decode (c0 ∷ c1 ∷ c2 ∷ []) acc bs ne
      ((v0, i0, s0, e0), ((v1, i1, s1, e1), ((v2, i2, s2, e2), _))) h =
    IsCode-three c0 c1 v0 v1 acc s0 s1 e0 e1 c2 v2 s2 e2 bs
      (sym (three_chars acc c0 c1 v0 v1 i0 i1 s0 s1 c2 v2 i2 s2 []) ∙ h)
IsCode-of_decode (c0 ∷ c1 ∷ c2 ∷ c3 ∷ cs) acc bs ne
      ((v0, i0, s0, e0), ((v1, i1, s1, e1), ((v2, i2, s2, e2), ((v3, i3, s3, e3), ls)))) h =
    IsCode-four c0 c1 v0 v1 acc s0 s1 e0 e1 c2 v2 s2 e2 c3 v3 s3 e3
      (decode_from cs (after_four acc v0 v1 v2 v3) 0) cs bs
      (λ rest e. IsCode-of_decode cs (after_four acc v0 v1 v2 v3) rest (λ r. ne (omega arith)) ls e)
      (sym (four_chars acc c0 c1 v0 v1 i0 i1 s0 s1 c2 v2 i2 s2 c3 v3 i3 s3 cs) ∙ h)

-- Whatever text decodes is the encoding of its bytes: no two texts decode to the same bytes.
pub b64url_encode-decode :
    (s : Text) (bs : Bytes) → b64url_decode s ≡ some bs → (b64url_encode bs ≡ s) × IsBytes bs
unfolding b64url_decode
b64url_encode-decode s bs h = elim (Bool-cases (length s % 4 == 1)) [
  | inl one ↦ cc (rw one at h)
  | inr more ↦
      let found = rw more at h in
      IsCode-of_decode s 0 bs (ground arith) (letters_of_some s 0 0 found) found
]
