-- ===== src/Paginate/Foreign.antt =====
-- Cursors of another session, at `Paginator::decode` of paginate.rs.
use toolcage.Prelude.{ℕ, ◌≡◌, ◌≢◌, refl, ap, ◌∙◌, Bytes, Text, List, take, err, text_eq_ne, arith}
use toolcage.Paginate.Base64.{b64url_encode}
use toolcage.Paginate.Base64.RoundTrip.{b64url_decode-encode}
use toolcage.Paginate.Hmac.{hmac_sha256}
use toolcage.Paginate.Tags.{ct_eq_iff}
use toolcage.Paginate.Cursor.{
  Paginator, bad_mac, snapshot, cursor_prefix, cursor_body, encode, check_raw, decode,
  new_paginator, snapshot_id,
}
use toolcage.Paginate.Accepted.{
  IsPaginator, new_paginator-IsPaginator, strip_prefix-append, cursor_raw, encode-raw, raw_length,
  raw_IsBytes, take_body, drop_body, drop_offset,
}

-- The tag that a key gives to the body of a cursor.
abbrev pub tag_of : Bytes → Bytes → Bytes
tag_of key body = take 16 (hmac_sha256 key body)

module _ (p q : Paginator) (v : IsPaginator p) (offset : ℕ) where
  decode-raw : decode q (encode p offset) ≡ check_raw q (cursor_raw p offset)
  unfolding decode
  decode-raw = rw (encode-raw p offset) (
      rw (strip_prefix-append cursor_prefix (b64url_encode (cursor_raw p offset))) (
        rw (b64url_decode-encode (cursor_raw p offset) (raw_IsBytes p v offset))
          (rw (raw_length p v offset) refl)))

  check-bad_mac :
      tag_of q.key (cursor_body p offset) ≢ tag_of p.key (cursor_body p offset)
      → check_raw q (cursor_raw p offset) ≡ err bad_mac
  unfolding check_raw
  check-bad_mac ne = rw (take_body p v offset) (
      rw (drop_body p v offset) (
        ground (
          arith,
          ct_eq_iff (tag_of q.key (cursor_body p offset)) (tag_of p.key (cursor_body p offset)),
        )))

  check-snapshot :
      p.key ≡ q.key
      → p.snapshot_id ≢ q.snapshot_id
      → check_raw q (cursor_raw p offset) ≡ err snapshot
  unfolding check_raw
  check-snapshot same ne = rw (take_body p v offset) (
      rw (drop_body p v offset) (
        rw (drop_offset p v offset) (
          ground (
            arith,
            ct_eq_iff (tag_of q.key (cursor_body p offset)) (tag_of p.key (cursor_body p offset)),
            ap (λ k. tag_of k (cursor_body p offset)) same,
            text_eq_ne p.snapshot_id q.snapshot_id ne,
          ))))

-- A cursor that was minted under another key is rejected as `bad_mac`, unless the two keys give its
-- body the same tag, whatever the lists of tools, the page sizes and the offset.
pub decode-other_key :
    (key key' : Bytes) (names names' : List Text) (page_size page_size' offset : ℕ)
    → let body = cursor_body (new_paginator key names page_size) offset in
      tag_of key' body ≢ tag_of key body
      → decode
          (new_paginator key' names' page_size')
          (encode (new_paginator key names page_size) offset)
        ≡ err bad_mac
unfolding new_paginator
decode-other_key key key' names names' page_size page_size' offset ne =
    let p = new_paginator key names page_size in
    let q = new_paginator key' names' page_size' in
    decode-raw p q (new_paginator-IsPaginator key names page_size) offset
    ∙ check-bad_mac p q (new_paginator-IsPaginator key names page_size) offset ne

-- Under one key, a cursor that was minted for another list of visible tools is rejected as
-- `snapshot`, unless the two lists have the same snapshot id, whatever the page sizes and the
-- offset.
pub decode-other_names :
    (key : Bytes) (names names' : List Text) (page_size page_size' offset : ℕ)
    → snapshot_id names ≢ snapshot_id names'
    → decode
        (new_paginator key names' page_size')
        (encode (new_paginator key names page_size) offset)
      ≡ err snapshot
unfolding new_paginator
decode-other_names key names names' page_size page_size' offset ne =
    let p = new_paginator key names page_size in
    let q = new_paginator key names' page_size' in
    decode-raw p q (new_paginator-IsPaginator key names page_size) offset
    ∙ check-snapshot p q (new_paginator-IsPaginator key names page_size) offset refl ne
