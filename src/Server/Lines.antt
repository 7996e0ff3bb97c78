-- ===== src/Server/Lines.antt =====
-- The blank line test of `handle_line` in server.rs: `line.trim().is_empty()`. `trim` drops the
-- characters with the Unicode property White_Space; a string is its UTF-8 bytes.
use toolcage.Prelude.{ℕ, Text, Bool, true, false, [], ◌∷◌, leb, ◌==◌, ◌&&◌, ◌||◌, if◌then◌else◌}

-- What has been read of a character.
pub data Partial : Type 0 where
  boundary : Partial
  c2 e1 e1_9a e2 e2_80 e2_81 e3 e3_80 : Partial
  solid : Partial

abbrev expect : Bool → Partial → Partial
expect c s = if c then s else solid

abbrev first_byte : ℕ → Partial
first_byte b =
    if (leb 9 b && leb b 13) || b == 32
    then boundary
    else if b == 194
    then c2
    else if b == 225
    then e1
    else if b == 226
    then e2
    else expect (b == 227) e3

-- U+0085 and U+00A0; U+1680; U+2000 to U+200A, U+2028, U+2029, U+202F; U+205F; U+3000.
unfoldable pub next_byte : Partial → ℕ → Partial
next_byte boundary b = first_byte b
next_byte c2 b = expect (b == 133 || b == 160) boundary
next_byte e1 b = expect (b == 154) e1_9a
next_byte e1_9a b = expect (b == 128) boundary
next_byte e2 b = if b == 128 then e2_80 else expect (b == 129) e2_81
next_byte e2_80 b =
    expect ((leb 128 b && leb b 138) || (b == 168 || (b == 169 || b == 175))) boundary
next_byte e2_81 b = expect (b == 159) boundary
next_byte e3 b = expect (b == 128) e3_80
next_byte e3_80 b = expect (b == 128) boundary
next_byte solid b = solid

unfoldable pub read_all : Partial → Text → Partial
read_all s [] = s
read_all s (b ∷ t) = read_all (next_byte s b) t

abbrev pub at_boundary : Partial → Bool
at_boundary boundary = true
at_boundary _ = false

-- `line.trim().is_empty()`
unfoldable pub is_blank : Text → Bool
unfolding next_byte read_all
is_blank line = at_boundary (read_all boundary line)
