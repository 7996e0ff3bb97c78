-- ===== src/Paginate/Snapshot.antt =====
-- `snapshot_id` of paginate.rs: its size, and the framing that it hashes.
use toolcage.Prelude.{
  append-injective, ℕ, zero, suc, ◌+◌, ◌*◌, ◌/◌, ◌^◌, ◌<◌, ◌≡◌, refl, ap, ap₂, sym, subst, ◌∙◌,
  Bytes, IsBytes, Text, List, [], ◌∷◌, ◌++◌, All, All-append_left, length, length-take, take, drop,
  take-append-drop, u64, le_bytes, to_le_bytes_64, arith,
}
use toolcage.Audit.Sha256.{sha256}
use toolcage.Audit.Digest.{sha256_shape}
use toolcage.Paginate.Cursor.{frame_names, frame, snapshot_id}

pub take-IsBytes : (n : ℕ) (bs : Bytes) → IsBytes bs → IsBytes (take n bs)
take-IsBytes n bs h =
    All-append_left (λ b. b < 256) (take n bs) (drop n bs)
      (subst IsBytes (sym (take-append-drop n bs)) h)

pub snapshot_id_shape :
    (names : List Text) → (length (snapshot_id names) ≡ 8) × IsBytes (snapshot_id names)
unfolding snapshot_id
snapshot_id_shape names =
    let (len, bytes) = sha256_shape (frame names) in
    (omega (arith, length-take {0} 8 (sha256 (frame names))), take-IsBytes 8 _ bytes)

length-le_bytes : (n w : ℕ) → length (le_bytes n w) ≡ n
unfolding le_bytes
length-le_bytes zero w = refl
length-le_bytes (suc n) w = ap suc (length-le_bytes n (w / 2 ^ 8))

-- The number that little-endian bytes stand for.
le_value : Bytes → ℕ
le_value [] = 0
le_value (b ∷ bs) = b + 256 * le_value bs

le_value-le_bytes : (w : ℕ) → w < 2 ^ 64 → le_value (to_le_bytes_64 w) ≡ w
unfolding le_value le_bytes
le_value-le_bytes w h = omega arith

le_bytes-injective :
    (v w : ℕ) → v < 2 ^ 64 → w < 2 ^ 64 → to_le_bytes_64 v ≡ to_le_bytes_64 w → v ≡ w
le_bytes-injective v w hv hw e =
    sym (le_value-le_bytes v hv) ∙ ap le_value e ∙ le_value-le_bytes w hw

abbrev FitsWord : Text → Type 0
FitsWord n = length n < 2 ^ 64

size_field : ℕ → Bytes
size_field n = to_le_bytes_64 (u64 n)

size_field-append :
    (m n : ℕ) (s t : Bytes)
    → m < 2 ^ 64
    → n < 2 ^ 64
    → size_field m ++ s ≡ size_field n ++ t
    → (m ≡ n) × (s ≡ t)
unfolding size_field
size_field-append m n s t hm hn e =
    let (same, rest) =
      append-injective (to_le_bytes_64 (u64 m)) (to_le_bytes_64 (u64 n)) s t
        (length-le_bytes 8 (u64 m) ∙ sym (length-le_bytes 8 (u64 n))) e in
    let words : u64 m ≡ u64 n =
      le_bytes-injective (u64 m) (u64 n) (omega arith) (omega arith) same in
    (omega arith, rest)

frame_names-injective :
    (a b : List Text)
    → All FitsWord a
    → All FitsWord b
    → length a ≡ length b
    → frame_names a ≡ frame_names b
    → a ≡ b
unfolding frame_names size_field
frame_names-injective [] [] ha hb e h = refl
frame_names-injective [] (m ∷ b) ha hb e h = absurd (omega arith)
frame_names-injective (n ∷ a) [] ha hb e h = absurd (omega arith)
frame_names-injective (n ∷ a) (m ∷ b) (hn, ha) (hm, hb) e h =
    let (size, rest) =
      size_field-append (length n) (length m) (n ++ frame_names a) (m ++ frame_names b) hn hm h in
    let (head, tail) = append-injective n m (frame_names a) (frame_names b) size rest in
    ap₂ ◌∷◌ head (frame_names-injective a b ha hb (omega arith) tail)

-- Two lists of names are hashed as the same bytes only if they are the same list: no name can run
-- into the next one.
pub frame-injective :
    (a b : List Text)
    → length a < 2 ^ 64
    → length b < 2 ^ 64
    → All FitsWord a
    → All FitsWord b
    → frame a ≡ frame b
    → a ≡ b
unfolding frame size_field
frame-injective a b la lb ha hb e =
    let (size, rest) =
      size_field-append (length a) (length b) (frame_names a) (frame_names b) la lb e in
    frame_names-injective a b ha hb size rest
