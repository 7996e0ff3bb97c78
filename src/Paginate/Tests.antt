-- ===== src/Paginate/Tests.antt =====
-- Cursors and pages of five tools, two to a page, and the theorems about them there.
use toolcage.Prelude.{
  ◌^◌, ◌<◌, ◌≡◌, ◌≢◌, ◌↔◌, refl, ap, get_or, Bytes, IsBytes, Text, text, text_eq, List, [], ◌∷◌,
  none, some, ok, err, replicate, le_bytes, arith,
}
use toolcage.Audit.Sha256.{sha256, padded}
use toolcage.Paginate.Base64.{
  b64url, letter, b64url_encode, b64url_val, leftover_ok, decode_from, b64url_decode,
}
use toolcage.Paginate.Base64.RoundTrip.{b64url_decode-encode}
use toolcage.Paginate.Base64.Canonical.{b64url_encode-decode}
use toolcage.Paginate.Hmac.{hmac_sha256, ct_eq}
use toolcage.Paginate.Cursor.{
  Paginator, Page, malformed, bad_mac, snapshot, out_of_range, cursor_prefix, frame, snapshot_id,
  new_paginator, cursor_body, encode, strip_prefix, check_raw, decode, page,
}
use toolcage.Paginate.Snapshot.{frame-injective}
use toolcage.Paginate.Accepted.{IsBoundary}
use toolcage.Paginate.Minted.{decode_iff}
use toolcage.Paginate.Foreign.{tag_of, decode-other_key, decode-other_names}
use toolcage.Paginate.Pages.{IsPageOf, page-IsPageOf}
use toolcage.Paginate.Walk.{walk, gather, walk-gather}

abbrev key7 : Bytes
key7 = replicate 32 7

abbrev five : List Text
five = text "a" ∷ text "b" ∷ text "c" ∷ text "d" ∷ text "e" ∷ []

abbrev four : List Text
four = text "a" ∷ text "b" ∷ text "c" ∷ text "d" ∷ []

abbrev by_two : Paginator
by_two = new_paginator key7 five 2

run : Unit {0}
unfolding text text_eq sha256 b64url letter b64url_encode b64url_val leftover_ok decode_from
    b64url_decode hmac_sha256 ct_eq cursor_prefix frame snapshot_id new_paginator cursor_body encode
    strip_prefix check_raw decode page le_bytes padded
run = tt

codes :
    (decode by_two (encode by_two 2) ≡ ok 2)
    × (decode by_two (encode by_two 5) ≡ err out_of_range)
    × (decode by_two (text "tc1.****") ≡ err malformed)
    × (decode (new_paginator (replicate 32 8) five 2) (encode by_two 2) ≡ err bad_mac)
    × (decode (new_paginator key7 four 2) (encode by_two 2) ≡ err snapshot)
unfolding run
codes = (refl, refl, refl, refl, refl)

first_page :
    page by_two none ≡ ok (record { start = 0; end = 2; next_cursor = some (encode by_two 2) })
unfolding run
first_page = refl

b64url_decode-encode_example : b64url_decode (b64url_encode (0xff ∷ 0 ∷ [])) ≡ some (0xff ∷ 0 ∷ [])
b64url_decode-encode_example = b64url_decode-encode (0xff ∷ 0 ∷ []) (omega arith)

b64url_encode-decode_example : (b64url_encode (0xff ∷ []) ≡ text "_w") × IsBytes (0xff ∷ [])
unfolding run
b64url_encode-decode_example = b64url_encode-decode (text "_w") (0xff ∷ []) refl

abbrev numbers : Bytes
numbers = 1 ∷ 2 ∷ 3 ∷ 4 ∷ 5 ∷ []

frame-injective_example : (text "a" ∷ []) ≡ (text "a" ∷ [])
unfolding run
frame-injective_example =
    frame-injective (text "a" ∷ []) (text "a" ∷ []) (omega arith) (omega arith) (omega arith)
      (omega arith) refl

decode_iff_example :
    (decode by_two (encode by_two 2) ≡ ok 2)
    ↔ ((encode by_two 2 ≡ encode by_two 2) × (2 < 2 ^ 32) × IsBoundary by_two 2)
decode_iff_example = decode_iff key7 five 2 (encode by_two 2) 2

tags_differ : tag_of (replicate 32 8) (cursor_body by_two 2) ≢ tag_of key7 (cursor_body by_two 2)
unfolding run
tags_differ e = omega (arith, ap (λ (t : Bytes). get_or t 0 0) e)

ids_differ : snapshot_id five ≢ snapshot_id four
unfolding run
ids_differ e = omega (arith, ap (λ (t : Bytes). get_or t 0 0) e)

decode-other_key_example :
    decode (new_paginator (replicate 32 8) five 2) (encode by_two 2) ≡ err bad_mac
decode-other_key_example = decode-other_key key7 (replicate 32 8) five five 2 2 2 tags_differ

decode-other_names_example : decode (new_paginator key7 four 2) (encode by_two 2) ≡ err snapshot
decode-other_names_example = decode-other_names key7 five four 2 2 2 ids_differ

page-IsPageOf_example :
    IsPageOf by_two (record { start = 0; end = 2; next_cursor = some (encode by_two 2) })
page-IsPageOf_example =
    page-IsPageOf key7 five 2 none
      (record { start = 0; end = 2; next_cursor = some (encode by_two 2) }) (omega arith)
      (omega arith) first_page

walk-gather_example :
    (gs : List Page) × (walk 6 by_two none ≡ some gs) × (gather gs numbers ≡ numbers)
walk-gather_example = walk-gather key7 five 2 numbers (omega arith) (omega arith) refl
