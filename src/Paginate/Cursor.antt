-- ===== src/Paginate/Cursor.antt =====
-- `Paginator`, `snapshot_id` and the cursors of paginate.rs. A string is its UTF-8 bytes.
use toolcage.Prelude.{
  ℕ, ◌%◌, Bytes, Text, text, text_eq, Bool, not, ◌||◌, List, [], ◌∷◌, ◌++◌, Option, none, some,
  length, take, drop, ltb, leb, ◌==◌, if◌then◌else◌, min, u32, u64, saturating_add, to_be_bytes,
  from_be_bytes, to_le_bytes_64, Result, ok, err, ◌>>=◌, bail_if, ◌>>◌,
}
use toolcage.Audit.Sha256.{sha256}
use toolcage.Paginate.Base64.{b64url_encode, b64url_decode}
use toolcage.Paginate.Hmac.{hmac_sha256, ct_eq}

unfoldable pub cursor_prefix : Text
unfolding text
cursor_prefix = text "tc1."

abbrev pub offset_len : ℕ
offset_len = 4

abbrev pub snapshot_len : ℕ
snapshot_len = 8

abbrev pub tag_len : ℕ
tag_len = 16

abbrev pub body_len : ℕ
body_len = 12

abbrev pub raw_len : ℕ
raw_len = 28

pub data CursorError : Type 0 where
  malformed bad_mac snapshot out_of_range : CursorError

-- `CursorError::as_str`
unfoldable pub cursor_error_as_str : CursorError → Text
cursor_error_as_str malformed = text "malformed"
cursor_error_as_str bad_mac = text "bad_mac"
cursor_error_as_str snapshot = text "snapshot_mismatch"
cursor_error_as_str out_of_range = text "out_of_range"

pub record Page : Type 0 where
  pub start : ℕ
  pub end : ℕ
  pub next_cursor : Option Text

pub record Paginator : Type 0 where
  pub key : Bytes
  pub snapshot_id : Bytes
  pub page_size : ℕ
  pub total : ℕ

-- The names behind their count, each behind its length.
unfoldable pub frame_names : List Text → Bytes
frame_names [] = []
frame_names (n ∷ names) = to_le_bytes_64 (u64 (length n)) ++ (n ++ frame_names names)

unfoldable pub frame : List Text → Bytes
unfolding frame_names
frame names = to_le_bytes_64 (u64 (length names)) ++ frame_names names

unfoldable pub snapshot_id : List Text → Bytes
snapshot_id names = take snapshot_len (sha256 (frame names))

-- `Paginator::new`
unfoldable pub new_paginator : Bytes → List Text → ℕ → Paginator
new_paginator key visible_names page_size = record {
  key = key;
  snapshot_id = snapshot_id visible_names;
  page_size = page_size;
  total = length visible_names;
}

-- `body` and `raw` of `encode`.
unfoldable pub cursor_body : Paginator → ℕ → Bytes
cursor_body p offset = to_be_bytes (u32 offset) ++ p.snapshot_id

unfoldable pub encode : Paginator → ℕ → Text
encode p offset =
    let body = cursor_body p offset in
    let tag = hmac_sha256 p.key body in cursor_prefix ++ b64url_encode (body ++ take tag_len tag)

-- `str::strip_prefix`
unfoldable pub strip_prefix : Text → Text → Option Text
strip_prefix [] t = some t
strip_prefix (x ∷ pre) [] = none
strip_prefix (x ∷ pre) (c ∷ t) = if x == c then strip_prefix pre t else none

-- `ok_or(CursorError::Malformed)?`
abbrev pub or_malformed : {A : Type 0} → Option A → Result CursorError A
or_malformed none = err malformed
or_malformed (some a) = ok a

-- `u32::from_be_bytes([body[0], body[1], body[2], body[3]])`
abbrev pub offset_of : Bytes → ℕ
offset_of (a ∷ b ∷ c ∷ d ∷ rest) = from_be_bytes a b c d
offset_of _ = 0

-- `n.is_multiple_of(d)`
abbrev pub is_multiple_of : ℕ → ℕ → Bool
is_multiple_of n d = if d == 0 then n == 0 else n % d == 0

-- The checks of `decode` behind the length test.
unfoldable pub check_raw : Paginator → Bytes → Result CursorError ℕ
check_raw p raw = do
  let body = take body_len raw
  let tag = drop body_len raw
  let expect = hmac_sha256 p.key body
  let offset = offset_of body
  bail_if (not (ct_eq (take tag_len expect) tag)) bad_mac
  bail_if (not (text_eq (drop offset_len body) p.snapshot_id)) snapshot
  bail_if ((offset == 0) || leb p.total offset || not (is_multiple_of offset p.page_size))
      out_of_range
  ok offset

unfoldable pub decode : Paginator → Text → Result CursorError ℕ
decode p cursor = do
  b64 ← or_malformed (strip_prefix cursor_prefix cursor)
  raw ← or_malformed (b64url_decode b64)
  bail_if (not (length raw == raw_len)) malformed
  check_raw p raw

-- `page` from the start of the page on.
unfoldable pub page_from : Paginator → ℕ → Page
page_from p start =
    let end = min (saturating_add start p.page_size) p.total in
    record {
      start = start;
      end = end;
      next_cursor = if ltb end p.total then some (encode p end) else none;
    }

abbrev pub start_of : Paginator → Option Text → Result CursorError ℕ
start_of p none = ok 0
start_of p (some c) = decode p c

unfoldable pub page : Paginator → Option Text → Result CursorError Page
unfolding page_from
page p cursor =
    if p.page_size == 0
    then ok (record { start = 0; end = p.total; next_cursor = none })
    else (start_of p cursor >>= λ start. ok (page_from p start))
