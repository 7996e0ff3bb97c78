-- ===== src/Audit/Digest.antt =====
-- The shape of `sha256`'s padding and result, in audit.rs.
use toolcage.Prelude.{
  ℕ, zero, suc, ◌-◌, ◌*◌, ◌%◌, ◌<◌, ◌≡◌, refl, sym, ap, ==_iff, ◌∙◌, Bytes, IsBytes, [], ◌∷◌, ◌++◌,
  length, length-append, replicate, ◌==◌, Bool-cases, inl, inr, u64, to_be_bytes_64, arith,
}
use mathlib.Core.List.{append_assoc, append-nil}
use toolcage.Audit.Sha256.{pad_zeros, padded, Hash, hash_bytes, sha256}

hash_bytes_shape : (x : Hash) → (length (hash_bytes x) ≡ 32) × IsBytes (hash_bytes x)
hash_bytes_shape x = (refl, omega arith)

-- A digest has 32 bytes.
pub sha256_shape : (bs : Bytes) → (length (sha256 bs) ≡ 32) × IsBytes (sha256 bs)
unfolding sha256
sha256_shape bs = hash_bytes_shape _

pad_zeros_lem :
    (fuel : ℕ) (msg : Bytes)
    → (120 - length msg % 64) % 64 < fuel
    → (n : ℕ) × (n < fuel)
      × (pad_zeros fuel msg ≡ msg ++ replicate n 0)
      × (length (pad_zeros fuel msg) % 64 ≡ 56)
unfolding pad_zeros
pad_zeros_lem zero msg h = absurd (omega arith)
pad_zeros_lem (suc fuel) msg h = elim (Bool-cases (length msg % 64 == 56)) [
  | inl done ↦ rw done (0, omega arith, sym (append-nil msg), (==_iff _ 56).0 done)
  | inr more ↦
      let next : (120 - length (msg ++ 0 ∷ []) % 64) % 64 < fuel =
        ground (arith, length-append msg (0 ∷ [])) in
      let (n, lt, e, m) = pad_zeros_lem fuel (msg ++ 0 ∷ []) next in
      rw more (suc n, omega arith, e ∙ append_assoc msg (0 ∷ []) (replicate n 0), m)
]

-- The padding of FIPS 180-4: the message, one bit, fewer than 64 bytes of zeros and the length in
-- bits, which together fill whole blocks of 64 bytes.
pub padded_shape :
    (bs : Bytes)
    → (n : ℕ) × (n < 64)
      × (padded bs ≡ bs ++ 0x80 ∷ replicate n 0 ++ to_be_bytes_64 (u64 (length bs * 8)))
      × (length (padded bs) % 64 ≡ 0)
unfolding padded
padded_shape bs =
    let (n, lt, e, m) = pad_zeros_lem 64 (bs ++ 0x80 ∷ []) (omega arith) in
    (
      n,
      lt,
      ap (λ t. t ++ to_be_bytes_64 (u64 (length bs * 8)))
          (e ∙ append_assoc bs (0x80 ∷ []) (replicate n 0)),
      omega (
        arith,
        length-append (pad_zeros 64 (bs ++ 0x80 ∷ [])) (to_be_bytes_64 (u64 (length bs * 8))),
      ),
    )
