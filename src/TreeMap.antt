-- ===== src/TreeMap.antt =====
-- `std::collections::BTreeMap<String, V>`, as the sources use it: an association list in the
-- order of its keys, with `get`, `insert`, `contains_key` and iteration in key order.
pub mod Laws
pub mod Order
use Prim.Native.Nat.{Ordering}
use toolcage.Prelude.{
  Text, text_eq, cmp, Bool, true, false, List, [], ◌∷◌, Option, none, some, if◌then◌else◌,
}

abbrev pub TreeMap {ℓ} : Type ℓ → Type ℓ
TreeMap V = List (Text × V)

module _ {ℓ} {V : Type ℓ} where
  unfoldable pub get : Text → TreeMap V → Option V
  get k [] = none
  get k ((j, v) ∷ m) = if text_eq j k then some v else get k m

  abbrev pub contains_key : Text → TreeMap V → Bool
  contains_key k m = elim (get k m) [ none ↦ false | some _ ↦ true ]

  unfoldable pub insert : Text → V → TreeMap V → TreeMap V
  insert k v [] = (k, v) ∷ []
  insert k v ((j, w) ∷ m) = elim (cmp k j) [
    | Ordering.lt ↦ (k, v) ∷ (j, w) ∷ m
    | Ordering.eq ↦ (k, v) ∷ m
    | Ordering.gt ↦ (j, w) ∷ insert k v m
  ]

  -- `iter().cloned().collect()` into a map: later pairs overwrite earlier ones.
  unfoldable pub insert_all : List (Text × V) → TreeMap V → TreeMap V
  insert_all [] m = m
  insert_all ((k, v) ∷ pairs) m = insert_all pairs (insert k v m)

  -- The first of two maps wins.
  abbrev pub or_else : Option V → Option V → Option V
  or_else none d = d
  or_else (some v) d = some v
