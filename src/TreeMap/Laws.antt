-- ===== src/TreeMap/Laws.antt =====
-- Looking up a key after an insertion.
use toolcage.Prelude.{
  Text, text_eq, text_eq_iff, cmp, cmp_refl, eq_of_cmp, Ordering-cases, ◌≡◌, refl, ap, inl, inr, [],
  ◌∷◌, some, if◌then◌else◌, arith,
}
use toolcage.TreeMap.{TreeMap, get, insert}

module _ {ℓ} {V : Type ℓ} where
  -- What an insertion does to a lookup.
  pub get-insert :
      (k j : Text) (v : V) (m : TreeMap V)
      → get j (insert k v m) ≡ (if text_eq k j then some v else get j m)
  unfolding get insert
  get-insert k j v [] = refl
  get-insert k j v ((i, w) ∷ m) = elim (Ordering-cases (cmp k i)) [
    | inl e ↦ rw (e, insert)
    | inr (inl e) ↦ rw (e, insert) (ground (arith, eq_of_cmp k i, text_eq_iff k j, text_eq_iff i j))
    | inr (inr e) ↦
        rw (e, insert)
          (ground (
            arith,
            text_eq_iff k j,
            text_eq_iff i j,
            cmp_refl j,
            ap (λ t. cmp k t) {x = i} {y = j},
            ap (λ t. cmp t j) {x = k} {y = j},
            get-insert k j v m,
          ))
  ]
