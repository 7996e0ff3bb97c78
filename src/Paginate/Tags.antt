-- ===== src/Paginate/Tags.antt =====
-- `ct_eq` and `hmac_sha256` of paginate.rs.
use toolcage.Prelude.{
  ℕ, ◌≡◌, refl, ◌↔◌, ap, ap₂, ◌∙◌, Bytes, IsBytes, [], ◌∷◌, length, bit_or, bit_xor, true, arith,
}
use toolcage.Bits.{xor_zero, xor_self, or_zero, or_eq_zero}
use toolcage.Audit.Digest.{sha256_shape}
use toolcage.Paginate.Hmac.{diff_of, ct_eq, hmac_sha256}

diff_of-zero :
    (diff : ℕ) (a b : Bytes) → length a ≡ length b → diff_of diff a b ≡ 0 → (diff ≡ 0) × (a ≡ b)
unfolding diff_of
diff_of-zero diff [] [] e h = (h, refl)
diff_of-zero diff [] (y ∷ b) e h = absurd (omega arith)
diff_of-zero diff (x ∷ a) [] e h = absurd (omega arith)
diff_of-zero diff (x ∷ a) (y ∷ b) e h =
    let (d, rest) = diff_of-zero (bit_or diff (bit_xor x y)) a b (omega arith) h in
    let (none, same) = or_eq_zero diff (bit_xor x y) d in (none, ap₂ ◌∷◌ (xor_zero x y same) rest)

diff_of_self : (a : Bytes) → diff_of 0 a a ≡ 0
unfolding diff_of
diff_of_self [] = refl
diff_of_self (x ∷ a) =
    ap (λ d. diff_of d a a) (ap (bit_or 0) (xor_self x) ∙ or_zero 0) ∙ diff_of_self a

-- `ct_eq` reads both slices to the end, and answers whether they are equal.
pub ct_eq_iff : (a b : Bytes) → (ct_eq a b ≡ true) ↔ (a ≡ b)
unfolding ct_eq
ct_eq_iff a b =
    (λ h. ground (arith, diff_of-zero 0 a b), λ e. rw e (ground (arith, diff_of_self b)))

pub hmac_shape :
    (key msg : Bytes) → (length (hmac_sha256 key msg) ≡ 32) × IsBytes (hmac_sha256 key msg)
unfolding hmac_sha256
hmac_shape key msg = sha256_shape _
