-- ===== src/TreeMap/Order.antt =====
-- The keys of a map are in strictly ascending order, and stay so.
use Prim.Native.Nat.{Ordering}
use toolcage.Prelude.{
  Text, text_eq_ne, text_eq_iff, ap, cmp, Ordering-cases, inl, inr, eq_of_cmp, cmp_swap, cmp_trans,
  ne_of_cmp, ◌≡◌, refl, List, [], ◌∷◌, none, All, arith,
}
use toolcage.TreeMap.{TreeMap, get, insert, insert_all, or_else}
use toolcage.TreeMap.Laws.{get-insert}

abbrev pub IsBelow {ℓ} : {V : Type ℓ} → Text → TreeMap V → Type 0
IsBelow k m = All (λ e. cmp k e.0 ≡ Ordering.lt) m

abbrev pub IsSorted {ℓ} : {V : Type ℓ} → TreeMap V → Type 0
IsSorted [] = Unit
IsSorted ((k, v) ∷ m) = IsBelow k m × IsSorted m

module _ {ℓ} {V : Type ℓ} where
  IsBelow-trans : (k j : Text) (m : TreeMap V) → cmp k j ≡ Ordering.lt → IsBelow j m → IsBelow k m
  IsBelow-trans k j [] p h = tt
  IsBelow-trans k j ((i, v) ∷ m) p (q, h) = (cmp_trans k j i p q, IsBelow-trans k j m p h)

  IsBelow-insert :
      (i k : Text) (v : V) (m : TreeMap V)
      → cmp i k ≡ Ordering.lt
      → IsBelow i m
      → IsBelow i (insert k v m)
  unfolding insert
  IsBelow-insert i k v [] p h = (p, tt)
  IsBelow-insert i k v ((j, w) ∷ m) p h = ground (arith, IsBelow-insert i k v m p)

  pub insert-IsSorted : (k : Text) (v : V) (m : TreeMap V) → IsSorted m → IsSorted (insert k v m)
  unfolding insert
  insert-IsSorted k v [] h = (tt, tt)
  insert-IsSorted k v ((j, w) ∷ m) (below, h) = ground (
    arith,
    cmp_swap k j,
    eq_of_cmp k j,
    IsBelow-trans k j m,
    IsBelow-insert j k v m,
    insert-IsSorted k v m h,
  )

  pub insert_all-IsSorted :
      (pairs : List (Text × V)) (m : TreeMap V) → IsSorted m → IsSorted (insert_all pairs m)
  unfolding insert_all
  insert_all-IsSorted [] m h = h
  insert_all-IsSorted ((k, v) ∷ pairs) m h =
      insert_all-IsSorted pairs (insert k v m) (insert-IsSorted k v m h)

  pub get-nil : (k : Text) → get {V = V} k [] ≡ none
  unfolding get
  get-nil k = refl

  -- A key that is below all of a map's keys is not in it.
  pub get-IsBelow : (k : Text) (m : TreeMap V) → IsBelow k m → get k m ≡ none
  unfolding get
  get-IsBelow k [] h = refl
  get-IsBelow k ((j, v) ∷ m) (p, h) =
      ground (arith, ne_of_cmp k j p, get-IsBelow k m h, text_eq_ne j k)

  -- In a merge of sorted pairs into a map, the pairs win.
  pub get-insert_all :
      (j : Text) (pairs m : TreeMap V)
      → IsSorted pairs
      → get j (insert_all pairs m) ≡ or_else (get j pairs) (get j m)
  unfolding get insert_all
  get-insert_all j [] m h = refl
  get-insert_all j ((k, v) ∷ pairs) m (below, h) = ground (
    arith,
    get-insert_all j pairs (insert k v m) h,
    get-insert k j v m,
    get-IsBelow k pairs below,
    ap (λ t. get t pairs) {x = k} {y = j},
    text_eq_iff k j,
  )

module _ {ℓ κ} {V : Type ℓ} (P : Text × V → Type κ) where
  pub All-insert : (k : Text) (v : V) (m : TreeMap V) → P (k, v) → All P m → All P (insert k v m)
  unfolding insert
  All-insert k v [] p h = (p, tt)
  All-insert k v ((j, w) ∷ m) p (q, h) = elim (Ordering-cases (cmp k j)) [
    | inl e ↦ rw (e, insert, All) (p, (q, h))
    | inr (inl e) ↦ rw (e, insert, All) (p, h)
    | inr (inr e) ↦ rw (e, insert, All) (q, All-insert k v m p h)
  ]

  pub All-insert_all : (pairs m : TreeMap V) → All P pairs → All P m → All P (insert_all pairs m)
  unfolding insert_all
  All-insert_all [] m h k = k
  All-insert_all ((j, v) ∷ pairs) m (p, h) k =
      All-insert_all pairs (insert j v m) h (All-insert j v m p k)
