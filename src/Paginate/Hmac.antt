-- ===== src/Paginate/Hmac.antt =====
-- `hmac_sha256` and `ct_eq` of paginate.rs.
use toolcage.Prelude.{
  ℕ, ◌-◌, ◌≡◌, refl, bit_or, bit_xor, Bytes, text, Bool, false, not, ◌∷◌, ◌++◌, map, length,
  replicate, ltb, ◌==◌, if◌then◌else◌,
}
use toolcage.Audit.Sha256.{sha256, hex}

-- `BLOCK`
abbrev pub block : ℕ
block = 64

-- `k`: the key, or its digest, in a block of zeros.
unfoldable pub block_key : Bytes → Bytes
block_key key =
    if ltb block (length key)
    then sha256 key ++ replicate (block - 32) 0
    else key ++ replicate (block - length key) 0

unfoldable pub hmac_sha256 : Bytes → Bytes → Bytes
unfolding block_key
hmac_sha256 key msg =
    let k = block_key key in
    let ipad = map (bit_xor 0x36) k in
    let opad = map (bit_xor 0x5c) k in sha256 (opad ++ sha256 (ipad ++ msg))

-- The loop of `ct_eq` along two slices of one length.
unfoldable pub diff_of : ℕ → Bytes → Bytes → ℕ
diff_of diff (x ∷ a) (y ∷ b) = diff_of (bit_or diff (bit_xor x y)) a b
diff_of diff _ _ = diff

unfoldable pub ct_eq : Bytes → Bytes → Bool
unfolding diff_of
ct_eq a b = if not (length a == length b) then false else diff_of 0 a b == 0

rfc4231 :
    hex (hmac_sha256 (replicate 20 0x0b) (text "Hi There"))
    ≡ text "b0344c61d8db38535ca8afceaf0bf12b881dc200c9833da726e9376c2e32cff7"
unfolding hex hmac_sha256 sha256 text
rfc4231 = refl
