-- ===== src/Audit/Sha256.antt =====
-- `sha256` and `sha256_hex` of audit.rs. A u32 is a number below 2 ^ 32.
use toolcage.Prelude.{
  ℕ, zero, suc, ◌+◌, ◌-◌, ◌*◌, ◌/◌, ◌%◌, ◌^◌, bit_and, bit_xor, Bytes, Text, text, List, [], ◌∷◌,
  ◌++◌, length, get_or, take, drop, ◌==◌, leb, ◌≡◌, refl, if◌then◌else◌, u64, ◌>>>◌, wrapping_add,
  to_be_bytes, from_be_bytes, to_be_bytes_64,
}

-- The round constants `K`.
abbrev k_words : List ℕ
k_words =
    0x428a2f98 ∷ 0x71374491 ∷ 0xb5c0fbcf ∷ 0xe9b5dba5 ∷ 0x3956c25b ∷ 0x59f111f1 ∷ 0x923f82a4
    ∷ 0xab1c5ed5 ∷ 0xd807aa98 ∷ 0x12835b01 ∷ 0x243185be ∷ 0x550c7dc3 ∷ 0x72be5d74 ∷ 0x80deb1fe
    ∷ 0x9bdc06a7 ∷ 0xc19bf174 ∷ 0xe49b69c1 ∷ 0xefbe4786 ∷ 0x0fc19dc6 ∷ 0x240ca1cc ∷ 0x2de92c6f
    ∷ 0x4a7484aa ∷ 0x5cb0a9dc ∷ 0x76f988da ∷ 0x983e5152 ∷ 0xa831c66d ∷ 0xb00327c8 ∷ 0xbf597fc7
    ∷ 0xc6e00bf3 ∷ 0xd5a79147 ∷ 0x06ca6351 ∷ 0x14292967 ∷ 0x27b70a85 ∷ 0x2e1b2138 ∷ 0x4d2c6dfc
    ∷ 0x53380d13 ∷ 0x650a7354 ∷ 0x766a0abb ∷ 0x81c2c92e ∷ 0x92722c85 ∷ 0xa2bfe8a1 ∷ 0xa81a664b
    ∷ 0xc24b8b70 ∷ 0xc76c51a3 ∷ 0xd192e819 ∷ 0xd6990624 ∷ 0xf40e3585 ∷ 0x106aa070 ∷ 0x19a4c116
    ∷ 0x1e376c08 ∷ 0x2748774c ∷ 0x34b0bcb5 ∷ 0x391c0cb3 ∷ 0x4ed8aa4a ∷ 0x5b9cca4f ∷ 0x682e6ff3
    ∷ 0x748f82ee ∷ 0x78a5636f ∷ 0x84c87814 ∷ 0x8cc70208 ∷ 0x90befffa ∷ 0xa4506ceb ∷ 0xbef9a3f7
    ∷ 0xc67178f2 ∷ []

-- The eight words `h`, or the working variables `a` to `hh`.
pub record Hash : Type 0 where
  pub a : ℕ
  pub b : ℕ
  pub c : ℕ
  pub d : ℕ
  pub e : ℕ
  pub f : ℕ
  pub g : ℕ
  pub h : ℕ

abbrev initial : Hash
initial = record {
  a = 0x6a09e667;
  b = 0xbb67ae85;
  c = 0x3c6ef372;
  d = 0xa54ff53a;
  e = 0x510e527f;
  f = 0x9b05688c;
  g = 0x1f83d9ab;
  h = 0x5be0cd19;
}

-- `u32::rotate_right`
unfoldable pub rotate_right : ℕ → ℕ → ℕ
rotate_right x n = x / 2 ^ n + x % 2 ^ n * 2 ^ (32 - n)

abbrev xor3 : ℕ → ℕ → ℕ → ℕ
xor3 x y z = bit_xor (bit_xor x y) z

-- `!x` on u32.
abbrev not_32 : ℕ → ℕ
not_32 x = bit_xor x 0xffffffff

-- The word at index `i` of the schedule, from the words before it.
next_word : List ℕ → ℕ → ℕ
unfolding rotate_right
next_word w i =
    let x = get_or w (i - 15) 0 in
    let y = get_or w (i - 2) 0 in
    let s0 = xor3 (rotate_right x 7) (rotate_right x 18) (x >>> 3) in
    let s1 = xor3 (rotate_right y 17) (rotate_right y 19) (y >>> 10) in
    wrapping_add (wrapping_add (wrapping_add (get_or w (i - 16) 0) s0) (get_or w (i - 7) 0)) s1

-- `for i in 16..64`, with `left` rounds to go.
schedule_from : ℕ → ℕ → List ℕ → List ℕ
schedule_from zero i w = w
schedule_from (suc left) i w = schedule_from left (i + 1) (w ++ next_word w i ∷ [])

-- `from_be_bytes` on each four bytes of a chunk; a chunk holds 64 bytes.
words_of : Bytes → List ℕ
words_of (p ∷ q ∷ r ∷ s ∷ rest) = from_be_bytes p q r s ∷ words_of rest
words_of _ = []

-- One round.
unfoldable pub round : Hash → ℕ → ℕ → Hash
unfolding rotate_right
round v k w =
    let s1 = xor3 (rotate_right v.e 6) (rotate_right v.e 11) (rotate_right v.e 25) in
    let ch = bit_xor (bit_and v.e v.f) (bit_and (not_32 v.e) v.g) in
    let temp1 = wrapping_add (wrapping_add (wrapping_add (wrapping_add v.h s1) ch) k) w in
    let s0 = xor3 (rotate_right v.a 2) (rotate_right v.a 13) (rotate_right v.a 22) in
    let maj = xor3 (bit_and v.a v.b) (bit_and v.a v.c) (bit_and v.b v.c) in
    let temp2 = wrapping_add s0 maj in
    record {
      a = wrapping_add temp1 temp2;
      b = v.a;
      c = v.b;
      d = v.c;
      e = wrapping_add v.d temp1;
      f = v.e;
      g = v.f;
      h = v.g;
    }

-- `for i in 0..64`, along the constants and the schedule.
rounds : Hash → List ℕ → List ℕ → Hash
rounds v (k ∷ ks) (w ∷ ws) = rounds (round v k w) ks ws
rounds v _ _ = v

abbrev add_hash : Hash → Hash → Hash
add_hash x y = record {
  a = wrapping_add x.a y.a;
  b = wrapping_add x.b y.b;
  c = wrapping_add x.c y.c;
  d = wrapping_add x.d y.d;
  e = wrapping_add x.e y.e;
  f = wrapping_add x.f y.f;
  g = wrapping_add x.g y.g;
  h = wrapping_add x.h y.h;
}

-- The body of the loop over the chunks.
unfoldable pub compress : Hash → Bytes → Hash
unfolding next_word schedule_from words_of round rounds
compress h chunk = add_hash h (rounds h k_words (schedule_from 48 16 (words_of chunk)))

-- `while msg.len() % 64 != 56 { msg.push(0) }`
unfoldable pub pad_zeros : ℕ → Bytes → Bytes
pad_zeros zero msg = msg
pad_zeros (suc fuel) msg =
    let more = pad_zeros fuel (msg ++ 0 ∷ []) in if length msg % 64 == 56 then msg else more

-- The message with its end mark, its zeros and its length in bits.
unfoldable pub padded : Bytes → Bytes
unfolding pad_zeros
padded bytes = pad_zeros 64 (bytes ++ 0x80 ∷ []) ++ to_be_bytes_64 (u64 (length bytes * 8))

-- `for chunk in msg.chunks_exact(64)`, at most `fuel` chunks.
unfoldable pub absorb : ℕ → Hash → Bytes → Hash
absorb zero h msg = h
absorb (suc fuel) h msg =
    let rest = absorb fuel (compress h (take 64 msg)) (drop 64 msg) in
    if leb 64 (length msg) then rest else h

abbrev pub hash_bytes : Hash → Bytes
hash_bytes x =
    to_be_bytes x.a
    ++ to_be_bytes x.b
    ++ to_be_bytes x.c
    ++ to_be_bytes x.d
    ++ to_be_bytes x.e
    ++ to_be_bytes x.f
    ++ to_be_bytes x.g
    ++ to_be_bytes x.h

unfoldable pub sha256 : Bytes → Bytes
unfolding compress padded absorb
sha256 bytes = let msg = padded bytes in hash_bytes (absorb (length msg) initial msg)

-- `{:02x}`
abbrev hex_digit : ℕ → ℕ
hex_digit n = if leb n 9 then b'0' + n else b'a' + n - 10

unfoldable pub hex : Bytes → Text
hex [] = []
hex (b ∷ bs) = hex_digit (b / 16) ∷ hex_digit (b % 16) ∷ hex bs

unfoldable pub sha256_hex : Bytes → Text
unfolding hex
sha256_hex bytes = hex (sha256 bytes)

abc :
    sha256_hex (text "abc")
    ≡ text "ba7816bf8f01cfea414140de5dae2223b00361a396177a9cb410ff61f20015ad"
unfolding sha256_hex sha256 text
abc = refl
