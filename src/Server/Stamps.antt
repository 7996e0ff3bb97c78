-- ===== src/Server/Stamps.antt =====
-- The names of the fields that server.rs hands to `Auditor::log`: none is that of the time or of
-- the event, which the auditor sets itself.
use toolcage.Prelude.{Text, text, text_eq, ◌≡◌, refl, false, [], ◌∷◌, List, All, none}
use toolcage.TreeMap.{TreeMap, get, insert, insert_all}
use toolcage.TreeMap.Laws.{get-insert}
use toolcage.TreeMap.Order.{IsSorted, insert-IsSorted}
use toolcage.Json.{Value}

pub record IsUnstamped (fs : TreeMap Value) : Type 0 where
  pub sorted : IsSorted fs
  pub no_ts : get (text "ts") fs ≡ none
  pub no_event : get (text "event") fs ≡ none

-- A key that is no stamp.
abbrev pub IsPlainKey : Text → Type 0
IsPlainKey k = (text_eq k (text "ts") ≡ false) × (text_eq k (text "event") ≡ false)

pub empty-IsUnstamped : IsUnstamped []
unfolding get
empty-IsUnstamped = record { sorted = tt; no_ts = refl; no_event = refl }

pub insert-IsUnstamped :
    (k : Text) (v : Value) (fs : TreeMap Value)
    → IsPlainKey k
    → IsUnstamped fs
    → IsUnstamped (insert k v fs)
insert-IsUnstamped k v fs (a, b) u = record {
  sorted = insert-IsSorted k v fs u.sorted;
  no_ts = rw (get-insert k (text "ts") v fs, a) u.no_ts;
  no_event = rw (get-insert k (text "event") v fs, b) u.no_event;
}

pub insert_all-IsUnstamped :
    (pairs : List (Text × Value)) (fs : TreeMap Value)
    → All (λ e. IsPlainKey e.0) pairs
    → IsUnstamped fs
    → IsUnstamped (insert_all pairs fs)
unfolding insert_all
insert_all-IsUnstamped [] fs h u = u
insert_all-IsUnstamped ((k, v) ∷ pairs) fs (p, h) u =
    insert_all-IsUnstamped pairs (insert k v fs) h (insert-IsUnstamped k v fs p u)
