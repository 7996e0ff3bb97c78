-- ===== src/Paginate/Base64.antt =====
-- `b64url_encode`, `b64url_val` and `b64url_decode` of paginate.rs.
pub mod Letters
pub mod Groups
pub mod RoundTrip
pub mod Canonical
use toolcage.Prelude.{
  ℕ, ◌+◌, ◌-◌, ◌^◌, ◌≡◌, refl, bit_and, bit_or, Bytes, Text, text, Bool, not, ◌&&◌, [], ◌∷◌, Option,
  none, some, length, get_or, ltb, leb, ◌==◌, if◌then◌else◌, u8, ◌<<<◌, ◌>>>◌, ◌%◌,
}
use mathlib.Core.Option

-- `B64URL`
unfoldable pub b64url : Text
unfolding text
b64url = text "ABCDEFGHIJKLMNOPQRSTUVWXYZabcdefghijklmnopqrstuvwxyz0123456789-_"

-- `B64URL[(n & 63) as usize] as char`
unfoldable pub letter : ℕ → ℕ
letter n = get_or b64url (bit_and n 63) 0

abbrev triple : ℕ → ℕ → ℕ → ℕ
triple b0 b1 b2 = bit_or (bit_or (b0 <<< 16) (b1 <<< 8)) b2

unfoldable pub b64url_encode : Bytes → Text
b64url_encode [] = []
b64url_encode (b0 ∷ []) = let n = triple b0 0 0 in letter (n >>> 18) ∷ letter (n >>> 12) ∷ []
b64url_encode (b0 ∷ b1 ∷ []) =
    let n = triple b0 b1 0 in letter (n >>> 18) ∷ letter (n >>> 12) ∷ letter (n >>> 6) ∷ []
b64url_encode (b0 ∷ b1 ∷ b2 ∷ rest) =
    let n = triple b0 b1 b2 in
    letter (n >>> 18) ∷ letter (n >>> 12) ∷ letter (n >>> 6) ∷ letter n ∷ b64url_encode rest

unfoldable pub b64url_val : ℕ → Option ℕ
b64url_val c =
    if leb b'A' c && leb c b'Z'
    then some (c - b'A')
    else if leb b'a' c && leb c b'z'
    then some (c - b'a' + 26)
    else if leb b'0' c && leb c b'9'
    then some (c - b'0' + 52)
    else if c == b'-'
    then some 62
    else if c == b'_'
    then some 63
    else none

-- The test after the loop: leftover bits must be zero.
unfoldable pub leftover_ok : ℕ → ℕ → Bool
leftover_ok acc nbits = not (ltb 0 nbits && not (bit_and acc (2 ^ nbits - 1) == 0))

-- The loop over the characters, and the bytes that it pushes from here on.
unfoldable pub decode_from : Text → ℕ → ℕ → Option Bytes
decode_from [] acc nbits = if leftover_ok acc nbits then some [] else none
decode_from (c ∷ cs) acc nbits = elim (b64url_val c) [
  | none ↦ none
  | some v ↦
      let acc' = bit_or (acc <<< 6) v in
      let full =
        Option.map (λ out. u8 (acc' >>> (nbits + 6 - 8)) ∷ out)
          (decode_from cs acc' (nbits + 6 - 8)) in
      let part = decode_from cs acc' (nbits + 6) in if leb 8 (nbits + 6) then full else part
]

unfoldable pub b64url_decode : Text → Option Bytes
b64url_decode s = if length s % 4 == 1 then none else decode_from s 0 0

vectors :
    (b64url_encode (text "foobar") ≡ text "Zm9vYmFy")
    × (b64url_decode (text "Zm9vYmFy") ≡ some (text "foobar"))
    × (b64url_encode (0xff ∷ 0xff ∷ []) ≡ text "__8")
    × (b64url_decode (text "****") ≡ none)
    × (b64url_decode (text "A") ≡ none)
    × (b64url_decode (text "Zm9vYmF+") ≡ none)
    × (b64url_decode (text "__") ≡ none)
    × (b64url_decode (text "_w") ≡ some (0xff ∷ []))
unfolding b64url_encode b64url_decode text b64url letter b64url_val leftover_ok decode_from
vectors = (refl, refl, refl, refl, refl, refl, refl, refl)
