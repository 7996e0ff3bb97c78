-- ===== src/Json.antt =====
-- `serde_json::Value` as the sources match on it and build it, with the methods that they call.
-- A `Map` is a `BTreeMap`. The text form is not here: see `Serde`.
use toolcage.Prelude.{ℕ, ◌-◌, Text, Bool, List, [], ◌∷◌, Option, none, some, Result}
use toolcage.TreeMap.{TreeMap, get, insert_all}

-- serde's three kinds of number; `neg_int n` is -(n + 1), and a float is its bit pattern.
pub data Number : Type 0 where
  pos_int neg_int float : ℕ → Number

mutual
  pub data Value : Type 0 where
    null : Value
    bool : Bool → Value
    number : Number → Value
    string : Text → Value
    array : Items → Value
    object : Members → Value

  pub data Items : Type 0 where
    nil : Items
    cons : Value → Items → Items

  pub data Members : Type 0 where
    end : Members
    member : Text → Value → Members → Members

-- `Vec<Value>` and `Map<String, Value>` as lists, and back.
abbrev pub items : Items → List Value
items nil = []
items (cons v vs) = v ∷ items vs

abbrev pub to_items : List Value → Items
to_items [] = nil
to_items (v ∷ vs) = cons v (to_items vs)

abbrev pub members : Members → TreeMap Value
members end = []
members (member k v ms) = (k, v) ∷ members ms

abbrev pub to_members : TreeMap Value → Members
to_members [] = end
to_members ((k, v) ∷ ms) = member k v (to_members ms)

-- `Value::Object(map)`
abbrev pub object_of : TreeMap Value → Value
object_of m = object (to_members m)

-- `json!({ … })`
unfoldable pub json : List (Text × Value) → Value
json fields = object_of (insert_all fields [])

-- `value.get(key)`
unfoldable pub get_field : Text → Value → Option Value
get_field k (object o) = get k (members o)
get_field k _ = none

abbrev pub as_str : Value → Option Text
as_str (string s) = some s
as_str _ = none

abbrev pub as_u64 : Value → Option ℕ
as_u64 (number (Number.pos_int n)) = some n
as_u64 _ = none

abbrev pub as_bool : Value → Option Bool
as_bool (bool b) = some b
as_bool _ = none

abbrev pub as_array : Value → Option (List Value)
as_array (array vs) = some (items vs)
as_array _ = none

-- `json!(n)` for an unsigned number, and for a negative i64 by its size.
abbrev pub nat : ℕ → Value
nat n = number (Number.pos_int n)

abbrev pub minus : ℕ → Value
minus n = number (Number.neg_int (n - 1))

-- `and_then`, `unwrap_or(Value::Null)`
infixl 5 ◌>>=◌
abbrev pub ◌>>=◌ : {A B : Type 0} → Option A → (A → Option B) → Option B
none >>= f = none
some a >>= f = f a

abbrev pub or_null : Option Value → Value
or_null none = null
or_null (some v) = v

-- `unwrap_or` on a string.
abbrev pub text_or : Option Text → Text → Text
text_or none d = d
text_or (some t) d = t

-- `serde_json::to_string` and `from_str`, whose error is the text of serde's message.
pub record Serde : Type 0 where
  pub to_string : Value → Text
  pub from_str : Text → Result Text Value
