-- ===== src/Rpc/Utf8.antt =====
-- `std::str::from_utf8`, for `extract_response` of rpc.rs: which bytes are UTF-8. Overlong forms,
-- surrogates and code points above U+10FFFF are not.
use toolcage.Prelude.{ℕ, Bytes, Bool, true, false, [], ◌∷◌, leb, ◌==◌, ◌&&◌, if◌then◌else◌}

-- What must follow: `tail n` stands for n + 1 continuation bytes, the others for a second byte in a
-- smaller range.
pub data Pending : Type 0 where
  none_pending tail_one tail_two tail_three after_e0 after_ed after_f0 after_f4 broken : Pending

abbrev between : ℕ → ℕ → ℕ → Bool
between lo hi b = leb lo b && leb b hi

abbrev when : Bool → Pending → Pending
when c s = if c then s else broken

abbrev leading : ℕ → Pending
leading b =
    if leb b 127
    then none_pending
    else if between 194 223 b
    then tail_one
    else if b == 224
    then after_e0
    else if b == 237
    then after_ed
    else if between 225 239 b
    then tail_two
    else if b == 240
    then after_f0
    else if b == 244
    then after_f4
    else when (between 241 243 b) tail_three

unfoldable pub advance : Pending → ℕ → Pending
advance none_pending b = leading b
advance tail_one b = when (between 128 191 b) none_pending
advance tail_two b = when (between 128 191 b) tail_one
advance tail_three b = when (between 128 191 b) tail_two
advance after_e0 b = when (between 160 191 b) tail_one
advance after_ed b = when (between 128 159 b) tail_one
advance after_f0 b = when (between 144 191 b) tail_two
advance after_f4 b = when (between 128 143 b) tail_two
advance broken b = broken

unfoldable pub scan : Pending → Bytes → Pending
scan s [] = s
scan s (b ∷ bs) = scan (advance s b) bs

abbrev pub complete : Pending → Bool
complete none_pending = true
complete _ = false

unfoldable pub is_utf8 : Bytes → Bool
unfolding advance scan
is_utf8 bs = complete (scan none_pending bs)
