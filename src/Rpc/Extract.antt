-- ===== src/Rpc/Extract.antt =====
-- `extract_response` of rpc.rs: the response with a given id in what a guest wrote.
use toolcage.Prelude.{
  ℕ, ◌+◌, Bytes, Bool, false, ◌&&◌, ◌||◌, List, [], ◌∷◌, Option, none, some, text, is_empty, ◌==◌,
  if◌then◌else◌, Result, ok, err, u64, split_on,
}
use toolcage.TreeMap.{TreeMap, get, contains_key}
use toolcage.Json.{Value, object, members, as_u64, ◌>>=◌, Serde}
use toolcage.Rpc.Utf8.{is_utf8}

-- `u8::is_ascii_whitespace`
abbrev is_ascii_whitespace : ℕ → Bool
is_ascii_whitespace b = b == 32 || (b == 9 || (b == 10 || (b == 12 || b == 13)))

-- The first loop of `trim_ascii`, and the second, which drops from the end.
unfoldable pub trim_start : Bytes → Bytes
trim_start [] = []
trim_start (b ∷ bs) = let rest = trim_start bs in if is_ascii_whitespace b then rest else b ∷ bs

unfoldable pub trim_end : Bytes → Bytes
trim_end [] = []
trim_end (b ∷ bs) =
    let rest = trim_end bs in if is_empty rest && is_ascii_whitespace b then [] else b ∷ rest

unfoldable pub trim_ascii : Bytes → Bytes
unfolding trim_start trim_end
trim_ascii b = trim_end (trim_start b)

abbrev to_option : Result Bytes Value → Option Value
to_option (ok v) = some v
to_option (err e) = none

abbrev is_id : Option ℕ → ℕ → Bool
is_id none want_id = false
is_id (some n) want_id = n == want_id

-- The test on an object, but for `found.is_none()`.
unfoldable pub answers : ℕ → TreeMap Value → Bool
answers want_id o =
    is_id (get (text "id") o >>= as_u64) want_id
    && (contains_key (text "result") o || contains_key (text "error") o)

pub record Scan : Type 0 where
  pub found : Option Value
  pub garbage : ℕ
  pub rpc : ℕ

abbrev pub start : Scan
start = record { found = none; garbage = 0; rpc = 0 }

abbrev pub first_of : Option Value → Value → Bool → Option Value
first_of none v hit = if hit then some v else none
first_of (some w) v hit = some w

-- The match on a parsed line.
unfoldable pub count : ℕ → Option Value → Scan → Scan
count want_id (some (object o)) s = record s {
  found = first_of s.found (object o) (answers want_id (members o));
  rpc = u64 (s.rpc + 1);
}
count want_id _ s = record s { garbage = u64 (s.garbage + 1) }

module _ (serde : Serde) where
  unfoldable pub parse_json : Bytes → Option Value
  parse_json line = if is_utf8 line then to_option (serde.from_str line) else none

  unfoldable pub scan_line : ℕ → Bytes → Scan → Scan
  scan_line want_id raw_line s =
      let line = trim_ascii raw_line in
      if is_empty line then s else count want_id (parse_json line) s

  unfoldable pub scan_lines : ℕ → List Bytes → Scan → Scan
  scan_lines want_id [] s = s
  scan_lines want_id (raw_line ∷ lines) s = scan_lines want_id lines (scan_line want_id raw_line s)

  unfoldable pub extract_response : Bytes → ℕ → Scan
  unfolding scan_lines
  extract_response stdout want_id = scan_lines want_id (split_on b'\n' stdout) start
