-- ===== src/Paginate/Accepted.antt =====
-- Which cursors `Paginator::decode` of paginate.rs accepts.
use toolcage.Prelude.{
  ℕ, ◌+◌, ◌<◌, ◌≡◌, refl, ap, ap₂, sym, subst, ◌∙◌, Bytes, IsBytes, Text, List, [], ◌∷◌, ◌++◌,
  All-append, length, length-append, length-take, take, drop, take-append_left, drop-append_left,
  u32, to_be_bytes, some, ok, err, ◌>>=◌, >>=-eq-ok, ok-injective, bail_if, text_eq, text_eq_iff,
  Bool, true, false, not, ◌||◌, ◌==◌, leb, if◌then◌else◌, arith,
}
use toolcage.Paginate.Base64.{b64url_encode}
use toolcage.Paginate.Hmac.{hmac_sha256, ct_eq}
use toolcage.Paginate.Tags.{ct_eq_iff, hmac_shape}
use toolcage.Paginate.Cursor.{
  Paginator, bad_mac, snapshot, out_of_range, cursor_prefix, cursor_body, encode, strip_prefix,
  offset_of, is_multiple_of, check_raw, new_paginator,
}
use toolcage.Paginate.Snapshot.{snapshot_id_shape, take-IsBytes}

-- The snapshot id has its size.
pub record IsPaginator (p : Paginator) : Type 0 where
  pub id_length : length p.snapshot_id ≡ 8
  pub id_bytes : IsBytes p.snapshot_id

pub new_paginator-IsPaginator :
    (key : Bytes) (names : List Text) (page_size : ℕ)
    → IsPaginator (new_paginator key names page_size)
unfolding new_paginator
new_paginator-IsPaginator key names page_size = record {
  id_length = (snapshot_id_shape names).0;
  id_bytes = (snapshot_id_shape names).1;
}

-- An interior page boundary: a positive multiple of the page size, below the total.
pub record IsBoundary (p : Paginator) (offset : ℕ) : Type 0 where
  pub positive : 0 < offset
  pub below : offset < p.total
  pub aligned : is_multiple_of offset p.page_size ≡ true

pub strip_prefix-append : (pre t : Text) → strip_prefix pre (pre ++ t) ≡ some t
unfolding strip_prefix
strip_prefix-append [] t = refl
strip_prefix-append (x ∷ pre) t = ground (arith, strip_prefix-append pre t)

pub strip_prefix-some : (pre c t : Text) → strip_prefix pre c ≡ some t → c ≡ pre ++ t
unfolding strip_prefix
strip_prefix-some [] c t h = cc
strip_prefix-some (x ∷ pre) [] t h = cc
strip_prefix-some (x ∷ pre) (y ∷ c) t h = ground (arith, strip_prefix-some pre c t)

-- The bytes of the cursor of an offset.
unfoldable pub cursor_raw : Paginator → ℕ → Bytes
cursor_raw p offset = cursor_body p offset ++ take 16 (hmac_sha256 p.key (cursor_body p offset))

pub encode-raw :
    (p : Paginator) (offset : ℕ)
    → encode p offset ≡ cursor_prefix ++ b64url_encode (cursor_raw p offset)
unfolding encode cursor_raw
encode-raw p offset = refl

module _ (p : Paginator) (v : IsPaginator p) (offset : ℕ) where
  body_length : length (cursor_body p offset) ≡ 12
  unfolding cursor_body
  body_length = omega (arith, v.id_length)

  tag_length : length (take 16 (hmac_sha256 p.key (cursor_body p offset))) ≡ 16
  tag_length = omega (
    arith,
    length-take {0} 16 (hmac_sha256 p.key (cursor_body p offset)),
    (hmac_shape p.key (cursor_body p offset)).0,
  )

  pub raw_length : length (cursor_raw p offset) ≡ 28
  unfolding cursor_raw
  raw_length = length-append (cursor_body p offset) _ ∙ ap₂ ◌+◌ body_length tag_length

  pub raw_IsBytes : IsBytes (cursor_raw p offset)
  unfolding cursor_raw cursor_body
  raw_IsBytes =
      All-append (λ b. b < 256) (cursor_body p offset) _
        (All-append (λ b. b < 256) (to_be_bytes (u32 offset)) p.snapshot_id (omega arith)
          v.id_bytes)
        (take-IsBytes 16 _ (hmac_shape p.key (cursor_body p offset)).1)

  pub take_body : take 12 (cursor_raw p offset) ≡ cursor_body p offset
  unfolding cursor_raw
  take_body =
      ap (λ n. take n (cursor_raw p offset)) (sym body_length)
      ∙ take-append_left (cursor_body p offset) _

  pub drop_body : drop 12 (cursor_raw p offset) ≡ take 16 (hmac_sha256 p.key (cursor_body p offset))
  unfolding cursor_raw
  drop_body =
      ap (λ n. drop n (cursor_raw p offset)) (sym body_length)
      ∙ drop-append_left (cursor_body p offset) _

  pub offset_of-body : offset_of (cursor_body p offset) ≡ u32 offset
  unfolding cursor_body
  offset_of-body = omega arith

  pub drop_offset : drop 4 (cursor_body p offset) ≡ p.snapshot_id
  unfolding cursor_body
  drop_offset = refl

abbrev pub is_off_boundary : Paginator → ℕ → Bool
is_off_boundary p o = (o == 0) || leb p.total o || not (is_multiple_of o p.page_size)

pub on_IsBoundary : (p : Paginator) (o : ℕ) → is_off_boundary p o ≡ false → IsBoundary p o
on_IsBoundary p o h = ground arith

pub boundary-test : (p : Paginator) (o : ℕ) → IsBoundary p o → is_off_boundary p o ≡ false
boundary-test p o b = ground (arith, b.positive, b.below, b.aligned)

-- What the checks of `decode` establish.
pub record IsChecked (p : Paginator) (raw : Bytes) (o : ℕ) : Type 0 where
  pub tag_is : take 16 (hmac_sha256 p.key (take 12 raw)) ≡ drop 12 raw
  pub snapshot_is : drop 4 (take 12 raw) ≡ p.snapshot_id
  pub offset_is : offset_of (take 12 raw) ≡ o
  pub boundary : IsBoundary p o

pub bail_if-ok : {E : Type 0} (b : Bool) (e : E) → bail_if b e ≡ ok tt → b ≡ false
bail_if-ok true e h = cc
bail_if-ok false e h = refl

pub not-false : (b : Bool) → not b ≡ false → b ≡ true
not-false true h = refl
not-false false h = cc

pub check_raw-IsChecked :
    (p : Paginator) (raw : Bytes) (o : ℕ) → check_raw p raw ≡ ok o → IsChecked p raw o
unfolding check_raw
check_raw-IsChecked p raw o h =
    let body = take 12 raw in
    let expect = take 16 (hmac_sha256 p.key body) in
    let (_, mac, h1) = >>=-eq-ok (bail_if (not (ct_eq expect (drop 12 raw))) bad_mac) _ h in
    let (_, snap, h2) =
      >>=-eq-ok (bail_if (not (text_eq (drop 4 body) p.snapshot_id)) snapshot) _ h1 in
    let (_, range, h3) =
      >>=-eq-ok (bail_if (is_off_boundary p (offset_of body)) out_of_range) _ h2 in
    let same : offset_of body ≡ o = ok-injective h3 in
    record {
      tag_is = (ct_eq_iff _ _).0 (not-false _ (bail_if-ok _ _ mac));
      snapshot_is = (text_eq_iff _ _).0 (not-false _ (bail_if-ok _ _ snap));
      offset_is = same;
      boundary = subst (IsBoundary p) same (on_IsBoundary p _ (bail_if-ok _ _ range));
    }

bail_if-then :
    {E A : Type 0} (b : Bool) (e : E) (a : A)
    → (bail_if b e >>= λ _. ok a) ≡ (if b then err e else ok a)
bail_if-then true e a = refl
bail_if-then false e a = refl

pub check_raw-eq :
    (p : Paginator) (raw : Bytes)
    → take 16 (hmac_sha256 p.key (take 12 raw)) ≡ drop 12 raw
    → drop 4 (take 12 raw) ≡ p.snapshot_id
    → check_raw p raw ≡ (
        if is_off_boundary p (offset_of (take 12 raw))
        then err out_of_range
        else ok (offset_of (take 12 raw)))
unfolding check_raw
check_raw-eq p raw mac snap =
    rw ((ct_eq_iff (take 16 (hmac_sha256 p.key (take 12 raw))) (drop 12 raw)).1 mac) (
      rw ((text_eq_iff (drop 4 (take 12 raw)) p.snapshot_id).1 snap)
        (bail_if-then (is_off_boundary p (offset_of (take 12 raw))) out_of_range _))
