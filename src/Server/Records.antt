-- ===== src/Server/Records.antt =====
-- The tool and the decision in the audit entry of a call, against `handle_call` of server.rs.
use toolcage.Prelude.{
  ℕ, Text, text, text_eq, text_eq_iff, Bool, true, false, not, List, [], ◌∷◌, ◌++◌, Option, none,
  some, Option-cases, Bool-cases, ◌≡◌, ◌≢◌, refl, sym, ap, inl, inr, if◌then◌else◌, if-cases, u64,
  ◌+◌, Result, ok, err, arith,
}
use toolcage.TreeMap.{TreeMap, get, insert, insert_all}
use toolcage.TreeMap.Laws.{get-insert}
use toolcage.Json.{Value, string, get_field, Serde}
use toolcage.Runner.{CallOutcome, completed, failed, CallStats}
use toolcage.Policy.{Grant}
use toolcage.Server.Stamps.{IsUnstamped, IsPlainKey, empty-IsUnstamped, insert-IsUnstamped}
use toolcage.Server.{result_fields, insert_some, Digested, deny_fields, allow_fields, settle}

-- The fields of an audit entry name a tool and the decision on it, and leave the stamps alone.
pub record Records (name decision : Text) (fs : TreeMap Value) : Type 0 where
  pub tool_is : get (text "tool") fs ≡ some (string name)
  pub decision_is : get (text "decision") fs ≡ some (string decision)
  pub unstamped : IsUnstamped fs

insert-Records :
    (name word k : Text) (v : Value) (fs : TreeMap Value)
    → text_eq k (text "tool") ≡ false
    → text_eq k (text "decision") ≡ false
    → IsPlainKey k
    → Records name word fs
    → Records name word (insert k v fs)
insert-Records name word k v fs e f p r = record {
  tool_is = rw (get-insert k (text "tool") v fs, e) r.tool_is;
  decision_is = rw (get-insert k (text "decision") v fs, f) r.decision_is;
  unstamped = insert-IsUnstamped k v fs p r.unstamped;
}

first-Records :
    (name word : Text)
    → Records name word
        (insert (text "decision") (string word) (insert (text "tool") (string name) []))
unfolding text get insert toolcage.Prelude.cmp text_eq
first-Records name word = record {
  tool_is = refl;
  decision_is = refl;
  unstamped =
      insert-IsUnstamped (text "decision") (string word) (insert (text "tool") (string name) [])
        (refl, refl)
        (insert-IsUnstamped (text "tool") (string name) [] (refl, refl) empty-IsUnstamped);
}

insert_some-Records :
    {A : Type 0} (name word k : Text) (f : A → Value) (o : Option A) (fs : TreeMap Value)
    → text_eq k (text "tool") ≡ false
    → text_eq k (text "decision") ≡ false
    → IsPlainKey k
    → Records name word fs
    → Records name word (insert_some k f o fs)
insert_some-Records name word k f none fs e h p r = r
insert_some-Records name word k f (some a) fs e h p r = insert-Records name word k (f a) fs e h p r

pub allow_fields-Records :
    (name : Text) (g : Grant) (stats : CallStats) (d : Digested)
    → Records name (text "allow") (allow_fields name g stats d)
unfolding text allow_fields insert_all text_eq
allow_fields-Records name g stats (size, hash) =
    insert_some-Records _ _ _ _ stats.exit_code _ refl refl (refl, refl)
      (insert_some-Records _ _ _ _ stats.fuel_used _ refl refl (refl, refl)
        (insert-Records _ _ _ _ _ refl refl (refl, refl)
          (insert-Records _ _ _ _ _ refl refl (refl, refl)
            (insert-Records _ _ _ _ _ refl refl (refl, refl)
              (insert-Records _ _ _ _ _ refl refl (refl, refl)
                (insert-Records _ _ _ _ _ refl refl (refl, refl)
                  (insert-Records _ _ _ _ _ refl refl (refl, refl)
                    (insert-Records _ _ _ _ _ refl refl (refl, refl)
                      (insert-Records _ _ _ _ _ refl refl (refl, refl) (first-Records _ _))))))))))

pub deny_fields-Records :
    (name word : Text) (d : Digested) → Records name word (insert_all (deny_fields name word d) [])
unfolding text deny_fields insert_all text_eq
deny_fields-Records name word (size, hash) =
    insert-Records _ _ _ _ _ refl refl (refl, refl)
      (insert-Records _ _ _ _ _ refl refl (refl, refl) (first-Records _ _))

module _ (serde : Serde) (id : Value) (fs : TreeMap Value) (name : Text)
    (r : Records name (text "allow") fs) where
  settled_result :
      (guest_result : Value) → Records name (text "allow") (result_fields serde guest_result fs)
  unfolding text result_fields text_eq
  settled_result guest_result =
      insert-Records _ _ _ _ _ refl refl (refl, refl)
        (insert-Records _ _ _ _ _ refl refl (refl, refl)
          (insert-Records _ _ _ _ _ refl refl (refl, refl)
            (insert-Records _ _ _ _ _ refl refl (refl, refl) r)))

  pub settled : (outcome : CallOutcome) → Records name (text "allow") (settle serde id outcome fs).0
  unfolding text settle text_eq
  settled (failed class detail) = insert-Records _ _ _ _ _ refl refl (refl, refl) r
  settled (completed response) = elim (Option-cases (get_field (text "result") response)) [
    | inr (guest_result, e) ↦ rw (e, settle) (settled_result guest_result)
    | inl e ↦ elim (Option-cases (get_field (text "error") response)) [
      | inr (guest_error, h) ↦
          rw (e, h, settle)
            (insert-Records _ _ _ _ _ refl refl (refl, refl)
              (insert-Records _ _ _ _ _ refl refl (refl, refl) r))
      | inl h ↦ rw (e, h, settle) (insert-Records _ _ _ _ _ refl refl (refl, refl) r)
    ]
  ]
