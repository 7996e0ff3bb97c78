-- ===== src/Audit/Logged.antt =====
-- What is in the lines that `Auditor::log` of src/audit.rs writes.
use mathlib.Core.List.{append_assoc, append-nil}
use toolcage.Prelude.{
  ℕ, ◌≡◌, ◌≢◌, refl, sym, ◌∙◌, ap, Bytes, Text, text, text_eq, Bool, true, false, List, [], ◌∷◌,
  ◌++◌, All, map, Option, none, some, split_on, split_on-append, u64, if◌then◌else◌, arith,
}
use toolcage.TreeMap.{TreeMap, get, insert, insert_all}
use toolcage.TreeMap.Order.{IsSorted, get-insert_all}
use toolcage.Json.{Value, string, members, to_members, object_of, json, Serde}
use toolcage.Audit.Clock.{rfc3339_utc}
use toolcage.Audit.Trail.{
  memory, Auditor, to_memory, fields, log_object, log_line, log_text, write, log,
}

abbrev header : ℕ → Text → TreeMap Value
header now event =
    insert (text "event") (string event) (insert (text "ts") (string (rfc3339_utc now)) [])

header-ts :
    (now : ℕ) (event : Text) → get (text "ts") (header now event) ≡ some (string (rfc3339_utc now))
unfolding get insert text text_eq toolcage.Prelude.cmp
header-ts now event = refl

header-event :
    (now : ℕ) (event : Text) → get (text "event") (header now event) ≡ some (string event)
unfolding get insert text text_eq toolcage.Prelude.cmp
header-event now event = refl

pub log_object-stamps :
    (now : ℕ) (event : Text) (fields : TreeMap Value)
    → IsSorted fields
    → get (text "ts") fields ≡ none
    → get (text "event") fields ≡ none
    → (get (text "ts") (log_object now event fields) ≡ some (string (rfc3339_utc now)))
      × (get (text "event") (log_object now event fields) ≡ some (string event))
unfolding log_object
log_object-stamps now event fields s ts ev = (
  get-insert_all (text "ts") fields (header now event) s ∙ rw ts (header-ts now event),
  get-insert_all (text "event") fields (header now event) s ∙ rw ev (header-event now event),
)

pub log_object-field :
    (now : ℕ) (event : Text) (fields : TreeMap Value) (k : Text) (v : Value)
    → IsSorted fields
    → get k fields ≡ some v
    → get k (log_object now event fields) ≡ some v
unfolding log_object
log_object-field now event fields k v s e = get-insert_all k fields (header now event) s ∙ rw e refl

-- The object of a line has the time and the event under `ts` and `event`, and each field under its
-- own name, if no field is called `ts` or `event`.
pub log_object-get :
    (now : ℕ) (event : Text) (fields : TreeMap Value) (k : Text) (v : Value)
    → IsSorted fields
    → get (text "ts") fields ≡ none
    → get (text "event") fields ≡ none
    → get k fields ≡ some v
    → (get (text "ts") (log_object now event fields) ≡ some (string (rfc3339_utc now)))
      × ((get (text "event") (log_object now event fields) ≡ some (string event))
          × (get k (log_object now event fields) ≡ some v))
log_object-get now event fields k v s ts ev e =
    let (a, b) = log_object-stamps now event fields s ts ev in
    (a, (b, log_object-field now event fields k v s e))

members-to_members : (m : TreeMap Value) → members (to_members m) ≡ m
members-to_members [] = refl
members-to_members ((k, v) ∷ m) = ap (λ n. (k, v) ∷ n) (members-to_members m)

-- `fields(json!({ … }))`, as all calls have it, does not panic.
fields-json : (pairs : List (Text × Value)) → fields (json pairs) ≡ some (insert_all pairs [])
unfolding fields json
fields-json pairs = ap some (members-to_members (insert_all pairs []))

-- An event with its time and its fields.
pub record Event : Type 0 where
  pub now : ℕ
  pub name : Text
  pub fields : TreeMap Value

module _ {F : Type 0} (serde : Serde) (write_all : Text → F → Bool × F) where
  unfoldable pub log_all : List Event → Auditor F → Auditor F
  log_all [] a = a
  log_all (e ∷ es) a = log_all es (log serde write_all e.now e.name e.fields a)

abbrev pub line_of : Serde → Event → Text
line_of serde e = serde.to_string (object_of (log_object e.now e.name e.fields))

-- The text of all the lines.
all_lines : Serde → List Event → Bytes
all_lines serde [] = []
all_lines serde (e ∷ es) = line_of serde e ++ b'\n' ∷ all_lines serde es

all_lines-split :
    (serde : Serde) (es : List Event)
    → All (λ e. All (λ b. b ≢ b'\n') (line_of serde e)) es
    → split_on b'\n' (all_lines serde es) ≡ map (line_of serde) es ++ [] ∷ []
unfolding all_lines split_on
all_lines-split serde [] h = refl
all_lines-split serde (e ∷ es) (p, h) =
    split_on-append b'\n' (line_of serde e) (all_lines serde es) p
    ∙ ap (λ ls. line_of serde e ∷ ls) (all_lines-split serde es h)

regroup : (a b c : Bytes) → (a ++ (b ++ b'\n' ∷ [])) ++ c ≡ a ++ (b ++ b'\n' ∷ c)
regroup a b c =
    append_assoc a (b ++ b'\n' ∷ []) c ∙ ap (λ t. a ++ t) (append_assoc b (b'\n' ∷ []) c)

module _ {F : Type 0} (serde : Serde) (write_all : Text → F → Bool × F) where
  log_all-memory :
      (es : List Event) (buf : Bytes) (n : ℕ)
      → log_all serde write_all es (record { sink = memory buf; poisoned = false; dropped = n })
        ≡ record { sink = memory (buf ++ all_lines serde es); poisoned = false; dropped = n }
  unfolding log_all log log_text log_line write all_lines
  log_all-memory [] buf n =
      ap (λ b. record { sink = memory b; poisoned = false; dropped = n }) (sym (append-nil buf))
  log_all-memory (e ∷ es) buf n =
      log_all-memory es _ n
      ∙ ap (λ b. record { sink = memory b; poisoned = false; dropped = n })
          (regroup buf (line_of serde e) (all_lines serde es))

-- Events that are logged to a new memory sink are all kept, each on its own line and in order, and
-- none is dropped; if serde prints each object on one line.
pub log_all_lem :
    {F : Type 0} (serde : Serde) (write_all : Text → F → Bool × F) (es : List Event)
    → All (λ e. All (λ b. b ≢ b'\n') (line_of serde e)) es
    → let a = log_all serde write_all es to_memory in
      (buf : Bytes) × ((a.sink ≡ memory buf)
        × ((split_on b'\n' buf ≡ map (line_of serde) es ++ [] ∷ []) × (a.dropped ≡ 0)))
log_all_lem serde write_all es h =
    let kept = log_all-memory serde write_all es [] 0 in
    (
      all_lines serde es,
      (ap (λ a. a.sink) kept, (all_lines-split serde es h, ap (λ a. a.dropped) kept)),
    )
