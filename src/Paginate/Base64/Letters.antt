-- ===== src/Paginate/Base64/Letters.antt =====
-- The alphabet of `b64url_encode` against `b64url_val`.
use toolcage.Prelude.{
  ℕ, ◌<◌, ◌%◌, ◌≡◌, refl, Bool, true, false, ◌&&◌, Option, none, some, get_or, ltb, ◌==◌, ==_iff,
  counterexample, no_counterexample, arith,
}
use toolcage.Bits.{and_sixty_three}
use toolcage.Paginate.Base64.{b64url, letter, b64url_val}

-- The letter of a sextet.
pub letter_at : ℕ → ℕ
letter_at v = get_or b64url v 0

pub letter-eq : (n : ℕ) → letter n ≡ letter_at (n % 64)
unfolding letter letter_at
letter-eq n = rw (and_sixty_three n)

abbrev gives_back : ℕ → Bool
gives_back v = elim (b64url_val (letter_at v)) [ none ↦ false | some w ↦ w == v ]

gives_back_table : counterexample gives_back 64 ≡ none
unfolding counterexample letter_at b64url b64url_val
gives_back_table = refl

some_of_gives_back :
    (o : Option ℕ) (v : ℕ) → elim o [ none ↦ false | some w ↦ w == v ] ≡ true → o ≡ some v
some_of_gives_back none v h = cc
some_of_gives_back (some w) v h = ground (arith, ==_iff w v)

pub val-letter_at : (v : ℕ) → v < 64 → b64url_val (letter_at v) ≡ some v
val-letter_at v h = some_of_gives_back _ v (no_counterexample gives_back 64 v gives_back_table h)

abbrev is_its_letter : ℕ → Bool
is_its_letter c = elim (b64url_val c) [ none ↦ true | some v ↦ ltb v 64 && letter_at v == c ]

is_its_letter_table : counterexample is_its_letter 123 ≡ none
unfolding counterexample letter_at b64url b64url_val
is_its_letter_table = refl

val-lt : (c v : ℕ) → b64url_val c ≡ some v → c < 123
unfolding b64url_val
val-lt c v h = ground arith

pub letter_at-val : (c v : ℕ) → b64url_val c ≡ some v → (v < 64) × (letter_at v ≡ c)
letter_at-val c v h =
    ground (arith, h, no_counterexample is_its_letter 123 c is_its_letter_table (val-lt c v h))
