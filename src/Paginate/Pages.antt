-- ===== src/Paginate/Pages.antt =====
-- The pages that `Paginator::page` of paginate.rs serves, and a client that follows `next_cursor`.
use toolcage.Prelude.{
  ℕ, ◌+◌, ◌^◌, ◌<◌, ◌≤◌, ◌≡◌, ◌⊎◌, subst, Bytes, Text, List, Option, none, some, length, min, ok,
  >>=-eq-ok, ok-injective, inr, true, false, ltb, ◌==◌, if◌then◌else◌, arith,
}
use toolcage.Paginate.Cursor.{
  Paginator, Page, encode, page, page_from, start_of, is_multiple_of, new_paginator,
}
use toolcage.Paginate.Accepted.{IsPaginator, new_paginator-IsPaginator}
use toolcage.Paginate.Minted.{decode_sound}

-- Where a page may start.
pub record IsStart (p : Paginator) (start : ℕ) : Type 0 where
  pub within : start ≤ p.total
  pub aligned : is_multiple_of start p.page_size ≡ true

pub multiple_step : (n d : ℕ) → 0 < d → is_multiple_of n d ≡ true → is_multiple_of (n + d) d ≡ true
multiple_step n d h e = grind arith

-- A page of at most `page_size` tools, short only at the end of the list, empty only if there is no
-- tool, with a cursor for the next page just when tools remain.
pub record IsPageOf (p : Paginator) (g : Page) : Type 0 where
  pub starts : IsStart p g.start
  pub ends : g.end ≡ min (g.start + p.page_size) p.total
  pub progress : (p.total ≡ 0) ⊎ (g.start < g.end)
  pub cursor_is : g.next_cursor ≡ (if ltb g.end p.total then some (encode p g.end) else none)

module _ (p : Paginator) (v : IsPaginator p) (paged : 0 < p.page_size)
    (fits : p.total < 2 ^ 64) where
  page_from-IsPageOf :
      (start : ℕ)
      → IsStart p start
      → ((p.total ≡ 0) ⊎ (start < p.total))
      → IsPageOf p (page_from p start)
  unfolding page_from
  page_from-IsPageOf start s inside = record {
    starts = s;
    ends = omega (arith, s.within);
    progress = omega (arith, inside, s.within);
    cursor_is = ground arith;
  }

  start_of-IsStart :
      (cursor : Option Text) (start : ℕ)
      → start_of p cursor ≡ ok start
      → IsStart p start × ((p.total ≡ 0) ⊎ (start < p.total))
  start_of-IsStart none start h =
      let e : 0 ≡ start = ok-injective h in
      (record { within = omega arith; aligned = ground arith }, omega arith)
  start_of-IsStart (some c) start h =
      let (_, _, b) = decode_sound p v c start h in
      (record { within = omega (arith, b.below); aligned = b.aligned }, inr b.below)

  page-start :
      (cursor : Option Text) (g : Page)
      → page p cursor ≡ ok g
      → (start : ℕ) × (start_of p cursor ≡ ok start) × (page_from p start ≡ g)
  unfolding page
  page-start cursor g h =
      let big : (p.page_size == 0) ≡ false = ground arith in
      let (start, from, made) =
        >>=-eq-ok (start_of p cursor) (λ s. ok (page_from p s)) (rw big at h) in
      (start, from, ok-injective made)

  page_lem : (cursor : Option Text) (g : Page) → page p cursor ≡ ok g → IsPageOf p g
  page_lem cursor g h =
      let (start, from, made) = page-start cursor g h in
      let (s, inside) = start_of-IsStart cursor start from in
      subst (IsPageOf p) made (page_from-IsPageOf start s inside)

-- With pages of `page_size` > 0 tools, every page that is served, for whatever cursor, starts at a
-- multiple of the page size, ends a page size later or at the end of the list, is empty only if no
-- tool is visible, and has a cursor, the one for its end, just when tools remain.
pub page-IsPageOf :
    (key : Bytes) (names : List Text) (page_size : ℕ) (cursor : Option Text) (g : Page)
    → 0 < page_size
    → length names < 2 ^ 64
    → page (new_paginator key names page_size) cursor ≡ ok g
    → IsPageOf (new_paginator key names page_size) g
unfolding new_paginator
page-IsPageOf key names page_size cursor g paged fits =
    page_lem (new_paginator key names page_size) (new_paginator-IsPaginator key names page_size)
      paged fits cursor g
