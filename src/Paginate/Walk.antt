-- ===== src/Paginate/Walk.antt =====
-- A client that asks for the first page and then follows `next_cursor`, against paginate.rs.
use mathlib.Core.Option
use mathlib.Core.List.{append-nil}
use toolcage.Prelude.{
  ℕ, zero, suc, ◌+◌, ◌-◌, ◌^◌, ◌<◌, ◌≤◌, ◌≡◌, refl, ap, ap₂, sym, subst, ◌∙◌, Bytes, Text, List, [],
  ◌∷◌, ◌++◌, Option, none, some, length, take, drop, drop-drop, take-append-drop, take_all,
  length-drop, ok, err, Bool-cases, Result-cases, Option-cases, inl, inr, ltb, arith,
}
use toolcage.Paginate.Cursor.{Paginator, Page, encode, page, page_from, start_of, new_paginator}
use toolcage.Paginate.Accepted.{IsPaginator, new_paginator-IsPaginator}
use toolcage.Paginate.Minted.{decode_complete}
use toolcage.Paginate.Pages.{IsStart, multiple_step}

-- The pages from a cursor on; `none` if a cursor is rejected or the pages do not end in time.
unfoldable pub walk : ℕ → Paginator → Option Text → Option (List Page)
walk zero p cursor = none
walk (suc fuel) p cursor = elim (page p cursor) [
  | err e ↦ none
  | ok g ↦ elim g.next_cursor [
    | none ↦ some (g ∷ [])
    | some c ↦ Option.map (λ gs. g ∷ gs) (walk fuel p (some c))
  ]
]

-- How the pages of a walk come about.
pub data IsWalk (p : Paginator) : Option Text → List Page → Type 0 where
  finish :
      (cursor : Option Text) (g : Page)
      → page p cursor ≡ ok g
      → g.next_cursor ≡ none
      → IsWalk p cursor (g ∷ [])
  follow :
      (cursor : Option Text) (g : Page) (c : Text) (gs : List Page)
      → page p cursor ≡ ok g
      → g.next_cursor ≡ some c
      → IsWalk p (some c) gs
      → IsWalk p cursor (g ∷ gs)

some-injective : {A : Type 0} {a b : A} → some a ≡ some b → a ≡ b
some-injective e = cc

walk-one :
    (fuel : ℕ) (p : Paginator) (cursor : Option Text) (g : Page)
    → page p cursor ≡ ok g
    → g.next_cursor ≡ none
    → walk (suc fuel) p cursor ≡ some (g ∷ [])
unfolding walk
walk-one fuel p cursor g e n = rw (e, walk) (simp n refl)

walk-next :
    (fuel : ℕ) (p : Paginator) (cursor : Option Text) (g : Page) (c : Text) (gs : List Page)
    → page p cursor ≡ ok g
    → g.next_cursor ≡ some c
    → walk fuel p (some c) ≡ some gs
    → walk (suc fuel) p cursor ≡ some (g ∷ gs)
unfolding walk
walk-next fuel p cursor g c gs e n w = rw (e, walk) (simp (n, w) refl)

pub walk-IsWalk :
    (fuel : ℕ) (p : Paginator) (cursor : Option Text) (gs : List Page)
    → walk fuel p cursor ≡ some gs
    → IsWalk p cursor gs
unfolding walk
walk-IsWalk zero p cursor gs h = absurd (ground (arith, h))
walk-IsWalk (suc fuel) p cursor gs h = elim (Result-cases (page p cursor)) [
  | inr (e, q) ↦ absurd (ground (arith, h, q))
  | inl (g, q) ↦ elim (Option-cases g.next_cursor) [
    | inl n ↦
        subst (IsWalk p cursor) {x = g ∷ []}
          (some-injective (sym (walk-one fuel p cursor g q n) ∙ h)) (finish cursor g q n)
    | inr (c, n) ↦ elim (Option-cases (walk fuel p (some c))) [
      | inl w ↦ absurd (ground (arith, h, q, n, w))
      | inr (hs, w) ↦
          subst (IsWalk p cursor) {x = g ∷ hs}
            (some-injective (sym (walk-next fuel p cursor g c hs q n w) ∙ h))
            (follow cursor g c hs q n (walk-IsWalk fuel p (some c) hs w))
    ]
  ]
]

module _ {A : Type 0} where
  -- `visible[page.start..page.end]`
  unfoldable pub slice : Page → List A → List A
  slice g xs = take (g.end - g.start) (drop g.start xs)

  unfoldable pub gather : List Page → List A → List A
  gather [] xs = []
  gather (g ∷ gs) xs = slice g xs ++ gather gs xs

module _ (p : Paginator) (v : IsPaginator p) (paged : 0 < p.page_size) (fits : p.total < 2 ^ 32)
    {A : Type 0} (xs : List A) (size : length xs ≡ p.total) where
  page-from :
      (cursor : Option Text) (start : ℕ)
      → start_of p cursor ≡ ok start
      → page p cursor ≡ ok (page_from p start)
  unfolding page
  page-from cursor start e = ground arith

  page_from-more :
      (start : ℕ)
      → start + p.page_size < p.total
      → page_from p start ≡ record {
        start = start;
        end = start + p.page_size;
        next_cursor = some (encode p (start + p.page_size));
      }
  unfolding page_from
  page_from-more start h = ground arith

  page_from-last :
      (start : ℕ)
      → start ≤ p.total
      → p.total ≤ start + p.page_size
      → page_from p start ≡ record { start = start; end = p.total; next_cursor = none }
  unfolding page_from
  page_from-last start le h = ground arith

  cut : (start n : ℕ) → take n (drop start xs) ++ drop (start + n) xs ≡ drop start xs
  cut start n =
      ap (λ t. take n (drop start xs) ++ t) (sym (drop-drop n start xs))
      ∙ take-append-drop n (drop start xs)

  walk_from :
      (fuel start : ℕ) (cursor : Option Text)
      → start_of p cursor ≡ ok start
      → IsStart p start
      → p.total - start < fuel
      → (gs : List Page) × (walk fuel p cursor ≡ some gs) × (gather gs xs ≡ drop start xs)
  unfolding gather slice
  walk_from zero start cursor e s h = absurd (omega arith)
  walk_from (suc fuel) start cursor e s h = elim (Bool-cases (ltb (start + p.page_size) p.total)) [
    | inl more ↦
        let lt : start + p.page_size < p.total = ground arith in
        let next = start + p.page_size in
        let aligned = multiple_step start p.page_size paged s.aligned in
        let (gs, walked, gathered) =
          walk_from fuel next (some (encode p next))
            (decode_complete p v next (omega arith)
              (record { positive = omega arith; below = lt; aligned = aligned }))
            (record { within = omega arith; aligned = aligned }) (omega (arith, s.within)) in
        (
          record { start = start; end = next; next_cursor = some (encode p next) } ∷ gs,
          walk-next fuel p cursor _ (encode p next) gs
              (page-from cursor start e ∙ ap ok (page_from-more start lt)) refl walked,
          ap₂ (λ n t. take n (drop start xs) ++ t) {y = p.page_size} (omega arith) gathered
              ∙ cut start p.page_size,
        )
    | inr last ↦
        let le : p.total ≤ start + p.page_size = ground arith in
        (
          record { start = start; end = p.total; next_cursor = none } ∷ [],
          walk-one fuel p cursor _
              (page-from cursor start e ∙ ap ok (page_from-last start s.within le)) refl,
          append-nil _
              ∙ take_all (p.total - start) (drop start xs) (omega (arith, length-drop start xs)),
        )
  ]

-- Following `next_cursor` from the first page never meets a rejected cursor, ends, and gathers
-- every visible tool exactly once, in order; fuel for one page more than there are tools is
-- enough. Pages have a size above 0, and there are fewer than 2^32 visible tools.
pub walk-gather :
    {A : Type 0} (key : Bytes) (names : List Text) (page_size : ℕ) (tools : List A)
    → 0 < page_size
    → length names < 2 ^ 32
    → length tools ≡ length names
    → let p = new_paginator key names page_size in
      (gs : List Page) × (walk (suc (length names)) p none ≡ some gs) × (gather gs tools ≡ tools)
unfolding new_paginator
walk-gather key names page_size tools paged fits size =
    let p = new_paginator key names page_size in
    walk_from p (new_paginator-IsPaginator key names page_size) paged fits tools size
      (suc (length names)) 0 none refl (record { within = omega arith; aligned = ground arith })
      (omega arith)
