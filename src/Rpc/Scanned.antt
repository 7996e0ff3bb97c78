-- ===== src/Rpc/Scanned.antt =====
-- What `extract_response` of rpc.rs finds and counts, against the list of the lines.
use toolcage.Prelude.{
  ℕ, suc, ◌+◌, ◌^◌, ◌<◌, ◌≤◌, ◌≡◌, refl, sym, ◌∙◌, ap, Bytes, Bool, true, false, not, List, [], ◌∷◌,
  Option, none, some, length, is_empty, if◌then◌else◌, Bool-cases, Option-cases, inl, inr, split_on,
  keep, map, subst, length-map, arith,
}
use toolcage.TreeMap.{or_else}
use toolcage.Json.{Value, Members, null, bool, number, string, array, object, members, Serde}
use toolcage.Rpc.Extract.{
  Scan, start, answers, trim_ascii, parse_json, count, scan_line, scan_lines, extract_response,
  first_of,
}

-- The lines that are not blank, trimmed.
unfoldable pub solid_lines : Bytes → List Bytes
solid_lines stdout = keep (λ l. not (is_empty l)) (map trim_ascii (split_on b'\n' stdout))

-- The JSON objects among parsed lines.
abbrev pub as_object : Option Value → Option Members
as_object (some (object o)) = some o
as_object _ = none

unfoldable pub objects : List (Option Value) → List Members
objects [] = []
objects (v ∷ vs) = elim (as_object v) [ some o ↦ o ∷ objects vs | none ↦ objects vs ]

-- The first that answers.
unfoldable pub first_answer : ℕ → List Members → Option Value
first_answer want_id [] = none
first_answer want_id (o ∷ os) =
    if answers want_id (members o) then some (object o) else first_answer want_id os

-- The state after the lines.
record IsScan (want_id : ℕ) (vs : List (Option Value)) (s t : Scan) : Type 0 where
  found_is : t.found ≡ or_else s.found (first_answer want_id (objects vs))
  rpc_is : t.rpc ≡ s.rpc + length (objects vs)
  total_is : t.rpc + t.garbage ≡ s.rpc + (s.garbage + length vs)

objects-miss :
    (v : Option Value) (vs : List (Option Value))
    → as_object v ≡ none
    → objects (v ∷ vs) ≡ objects vs
unfolding objects
objects-miss v vs e = rw (e, objects) refl

objects-hit :
    (v : Option Value) (o : Members) (vs : List (Option Value))
    → as_object v ≡ some o
    → objects (v ∷ vs) ≡ o ∷ objects vs
unfolding objects
objects-hit v o vs e = rw (e, objects) refl

module _ (want_id : ℕ) where
  fold_count : List (Option Value) → Scan → Scan
  fold_count [] s = s
  fold_count (v ∷ vs) s = fold_count vs (count want_id v s)

  count_as : Option Members → Scan → Scan
  count_as (some o) s = count want_id (some (object o)) s
  count_as none s = count want_id none s

  count-as_object : (v : Option Value) (s : Scan) → count want_id v s ≡ count_as (as_object v) s
  unfolding count count_as
  count-as_object none s = refl
  count-as_object (some null) s = refl
  count-as_object (some (bool b)) s = refl
  count-as_object (some (number n)) s = refl
  count-as_object (some (string t)) s = refl
  count-as_object (some (array vs)) s = refl
  count-as_object (some (object o)) s = refl

  or_else-first_of :
      (f : Option Value) (v : Value) (hit : Bool) (rest : Option Value)
      → or_else (first_of f v hit) rest ≡ or_else f (if hit then some v else rest)
  or_else-first_of none v true rest = refl
  or_else-first_of none v false rest = refl
  or_else-first_of (some w) v hit rest = refl

  or_else-none : (f : Option Value) → or_else f none ≡ f
  or_else-none none = refl
  or_else-none (some v) = refl

  fold_count-IsScan :
      (vs : List (Option Value)) (s : Scan)
      → s.rpc + (s.garbage + length vs) < 2 ^ 64
      → IsScan want_id vs s (fold_count vs s)
  unfolding fold_count count count_as objects first_answer
  fold_count-IsScan [] s h = record {
    found_is = sym (or_else-none s.found);
    rpc_is = omega arith;
    total_is = omega arith;
  }
  fold_count-IsScan (v ∷ vs) s h = elim (Option-cases (as_object v)) [
    | inl e ↦
        let r = fold_count-IsScan vs (count want_id none s) (omega arith) in
        let same : objects (v ∷ vs) ≡ objects vs = objects-miss v vs e in
        rw (count-as_object v s, e, fold_count)
          (record {
            found_is = r.found_is ∙ ap (λ os. or_else s.found (first_answer want_id os)) (sym same);
            rpc_is = omega (arith, r.rpc_is, ap length same);
            total_is = omega (arith, r.total_is);
          })
    | inr (o, e) ↦
        let r = fold_count-IsScan vs (count want_id (some (object o)) s) (omega arith) in
        let same : objects (v ∷ vs) ≡ o ∷ objects vs = objects-hit v o vs e in
        rw (count-as_object v s, e, fold_count)
          (record {
            found_is =
                r.found_is
                ∙ or_else-first_of s.found (object o) (answers want_id (members o)) _
                ∙ ap (λ os. or_else s.found (first_answer want_id os)) (sym same);
            rpc_is = omega (arith, r.rpc_is, ap length same);
            total_is = omega (arith, r.total_is);
          })
  ]

  module _ (serde : Serde) where
    scan_lines-fold :
        (lines : List Bytes) (s : Scan)
        → scan_lines serde want_id lines s
          ≡ fold_count
              (map (parse_json serde) (keep (λ l. not (is_empty l)) (map trim_ascii lines)))
              s
    unfolding scan_lines scan_line fold_count
    scan_lines-fold [] s = refl
    scan_lines-fold (l ∷ ls) s = elim (Bool-cases (is_empty (trim_ascii l))) [
      | inl e ↦ rw (e, scan_lines, scan_line, keep, map, fold_count) (scan_lines-fold ls s)
      | inr e ↦ rw (e, scan_lines, scan_line, keep, map, fold_count) (scan_lines-fold ls _)
    ]

length-keep : {A : Type 0} (p : A → Bool) (xs : List A) → length (keep p xs) ≤ length xs
length-keep p [] = omega arith
length-keep p (x ∷ xs) = ground (arith, length-keep p xs)

length-split_on : (sep : ℕ) (xs : List ℕ) → length (split_on sep xs) ≤ suc (length xs)
unfolding split_on
length-split_on sep [] = omega arith
length-split_on sep (x ∷ xs) = ground (arith, length-split_on sep xs)

length-solid_lines : (stdout : Bytes) → length (solid_lines stdout) ≤ suc (length stdout)
unfolding solid_lines
length-solid_lines stdout = omega (
  arith,
  length-keep (λ l. not (is_empty l)) (map trim_ascii (split_on b'\n' stdout)),
  length-map trim_ascii (split_on b'\n' stdout),
  length-split_on b'\n' stdout,
)

-- The lines of a guest's output that are JSON objects.
unfoldable pub object_lines : Serde → Bytes → List Members
unfolding objects
object_lines serde stdout = objects (map (parse_json serde) (solid_lines stdout))

-- `extract_response` finds the first JSON object of the output, by lines, that has the id and a
-- result or an error, if there is one. It counts the JSON objects, and as garbage every other line
-- that is not blank. The output is shorter than 2^64 - 1 bytes.
pub extract_response_lem :
    (serde : Serde) (stdout : Bytes) (want_id : ℕ)
    → suc (length stdout) < 2 ^ 64
    → let t = extract_response serde stdout want_id in
      (t.found ≡ first_answer want_id (object_lines serde stdout))
      × ((t.rpc ≡ length (object_lines serde stdout))
          × (t.rpc + t.garbage ≡ length (solid_lines stdout)))
unfolding extract_response object_lines solid_lines
extract_response_lem serde stdout want_id fits =
    let lines = split_on b'\n' stdout in
    let vs = map (parse_json serde) (solid_lines stdout) in
    let size : length vs ≡ length (solid_lines stdout) = length-map _ (solid_lines stdout) in
    let r : IsScan want_id vs start (scan_lines serde want_id lines start) =
      subst (IsScan want_id vs start) (sym (scan_lines-fold want_id serde lines start))
        (fold_count-IsScan want_id vs start (omega (arith, size, length-solid_lines stdout))) in
    (r.found_is, (omega (arith, r.rpc_is), omega (arith, r.total_is, size)))
