-- ===== src/Paginate/Minted.antt =====
-- A cursor that `Paginator::encode` of paginate.rs mints, and `Paginator::decode` of it.
use toolcage.Prelude.{
  ℕ, ◌^◌, ◌<◌, ◌≡◌, ◌↔◌, ap, ap₂, sym, ◌∙◌, Bytes, IsBytes, Text, List, [], ◌∷◌, ◌++◌, length,
  length-take, take, drop, take-append-drop, u32, to_be_bytes, some, none, Option, ok, err,
  >>=-eq-ok, bail_if, not, ◌==◌, ==_iff, if◌then◌else◌, subst, arith,
}
use toolcage.Paginate.Base64.{b64url_encode, b64url_decode}
use toolcage.Paginate.Base64.RoundTrip.{b64url_decode-encode}
use toolcage.Paginate.Base64.Canonical.{b64url_encode-decode}
use toolcage.Paginate.Hmac.{hmac_sha256}
use toolcage.Paginate.Cursor.{
  Paginator, malformed, out_of_range, cursor_prefix, cursor_body, encode, strip_prefix,
  or_malformed, offset_of, decode, new_paginator,
}
use toolcage.Paginate.Snapshot.{take-IsBytes}
use toolcage.Paginate.Accepted.{
  IsPaginator, new_paginator-IsPaginator, IsBoundary, strip_prefix-append, strip_prefix-some,
  cursor_raw, encode-raw, raw_length, raw_IsBytes, take_body, drop_body, offset_of-body,
  drop_offset, is_off_boundary, boundary-test, IsChecked, check_raw-IsChecked, check_raw-eq,
  bail_if-ok, not-false,
}

or_malformed-ok : {A : Type 0} (o : Option A) {a : A} → or_malformed o ≡ ok a → o ≡ some a
or_malformed-ok none h = cc
or_malformed-ok (some a) h = cc

offset_of-lt : (body : Bytes) → IsBytes body → offset_of body < 2 ^ 32
offset_of-lt [] h = omega arith
offset_of-lt (a ∷ []) h = omega arith
offset_of-lt (a ∷ b ∷ []) h = omega arith
offset_of-lt (a ∷ b ∷ c ∷ []) h = omega arith
offset_of-lt (a ∷ b ∷ c ∷ d ∷ rest) h = omega arith

module _ (p : Paginator) (v : IsPaginator p) where
  -- A minted cursor reaches the last check.
  decode-minted :
      (offset : ℕ)
      → decode p (encode p offset)
        ≡ (if is_off_boundary p (u32 offset) then err out_of_range else ok (u32 offset))
  unfolding decode
  decode-minted offset = rw (encode-raw p offset) (
      rw (strip_prefix-append cursor_prefix (b64url_encode (cursor_raw p offset))) (
        rw (b64url_decode-encode (cursor_raw p offset) (raw_IsBytes p v offset)) (
          rw (raw_length p v offset) (
            check_raw-eq p (cursor_raw p offset) tag_is snapshot_is
            ∙ ap (λ o. if is_off_boundary p o then err out_of_range else ok o)
                (ap offset_of (take_body p v offset) ∙ offset_of-body p v offset)))))
    where
      tag_is :
          take 16 (hmac_sha256 p.key (take 12 (cursor_raw p offset)))
          ≡ drop 12 (cursor_raw p offset)
      tag_is =
          ap (λ b. take 16 (hmac_sha256 p.key b)) (take_body p v offset)
          ∙ sym (drop_body p v offset)

      snapshot_is : drop 4 (take 12 (cursor_raw p offset)) ≡ p.snapshot_id
      snapshot_is = ap (drop 4) (take_body p v offset) ∙ drop_offset p v offset

  four_bytes :
      (body : Bytes)
      → length body ≡ 12
      → IsBytes body
      → body ≡ to_be_bytes (u32 (offset_of body)) ++ drop 4 body
  four_bytes [] e h = absurd (omega arith)
  four_bytes (a ∷ []) e h = absurd (omega arith)
  four_bytes (a ∷ b ∷ []) e h = absurd (omega arith)
  four_bytes (a ∷ b ∷ c ∷ []) e h = absurd (omega arith)
  four_bytes (a ∷ b ∷ c ∷ d ∷ rest) e h = ground arith

  raw_of_checked :
      (raw : Bytes) (o : ℕ)
      → IsBytes raw
      → length raw ≡ 28
      → IsChecked p raw o
      → (raw ≡ cursor_raw p o) × (o < 2 ^ 32)
  unfolding cursor_raw cursor_body
  raw_of_checked raw o bytes len c = (
    sym (take-append-drop 12 raw)
        ∙ ap₂ ◌++◌ body_is (sym c.tag_is ∙ ap (λ b. take 16 (hmac_sha256 p.key b)) body_is),
    subst (λ n. n < 2 ^ 32) c.offset_is (offset_of-lt (take 12 raw) (take-IsBytes 12 raw bytes)),
  )
    where
      body_is : take 12 raw ≡ cursor_body p o
      body_is =
          four_bytes (take 12 raw) (omega (arith, length-take {0} 12 raw))
            (take-IsBytes 12 raw bytes)
          ∙ ap₂ (λ n s. to_be_bytes (u32 n) ++ s) c.offset_is c.snapshot_is

  pub decode_sound :
      (c : Text) (o : ℕ) → decode p c ≡ ok o → (c ≡ encode p o) × (o < 2 ^ 32) × IsBoundary p o
  unfolding decode
  decode_sound c o h =
      let (b64, stripped, h1) = >>=-eq-ok (or_malformed (strip_prefix cursor_prefix c)) _ h in
      let (raw, decoded, h2) = >>=-eq-ok (or_malformed (b64url_decode b64)) _ h1 in
      let (_, sized, h3) = >>=-eq-ok (bail_if (not (length raw == 28)) malformed) _ h2 in
      let (coded, bytes) = b64url_encode-decode b64 raw (or_malformed-ok _ decoded) in
      let len = (==_iff (length raw) 28).0 (not-false _ (bail_if-ok _ _ sized)) in
      let checked = check_raw-IsChecked p raw o h3 in
      let (same, small) = raw_of_checked raw o bytes len checked in
      (
        strip_prefix-some cursor_prefix c b64 (or_malformed-ok _ stripped)
            ∙ ap (λ t. cursor_prefix ++ t) (sym coded ∙ ap b64url_encode same)
            ∙ sym (encode-raw p o),
        small,
        checked.boundary,
      )

  pub decode_complete : (o : ℕ) → o < 2 ^ 32 → IsBoundary p o → decode p (encode p o) ≡ ok o
  decode_complete o small b =
      let e : u32 o ≡ o = omega arith in
      decode-minted o
      ∙ ap (λ n. if is_off_boundary p n then err out_of_range else ok n) e
      ∙ ap (λ t. if t then err out_of_range else ok o) (boundary-test p o b)

-- The paginator of a session accepts a cursor for an offset just when the cursor is, byte for byte,
-- the one that it mints for that offset, and the offset is a positive multiple of the page size
-- below the number of visible tools (and fits the four bytes that hold it).
pub decode_iff :
    (key : Bytes) (names : List Text) (page_size : ℕ) (cursor : Text) (offset : ℕ)
    → let p = new_paginator key names page_size in
      (decode p cursor ≡ ok offset)
      ↔ ((cursor ≡ encode p offset) × (offset < 2 ^ 32) × IsBoundary p offset)
decode_iff key names page_size cursor offset =
    let p = new_paginator key names page_size in
    let v = new_paginator-IsPaginator key names page_size in
    (
      decode_sound p v cursor offset,
      λ (same, small, b). rw same (decode_complete p v offset small b),
    )
