-- ===== src/Rpc.antt =====
-- rpc.rs: JSON-RPC messages, one to a line.
pub mod Transcript
pub mod Parsed
pub mod Utf8
pub mod Extract
pub mod Scanned
mod Tests
use toolcage.Prelude.{
  ℕ, ◌≡◌, Text, text, text_eq, Bool, true, false, not, List, [], ◌∷◌, ◌++◌, Option, none, some,
  Result, ok, err, if◌then◌else◌,
}
use toolcage.TreeMap.{TreeMap, get, insert}
use toolcage.Json.{
  Value, null, string, array, object, Members, members, object_of, json, get_field, as_str, nat,
  minus, ◌>>=◌, or_null, Serde,
}

-- `CARGO_PKG_VERSION`, from Cargo.toml.
unfoldable pub toolcage_version : Text
unfolding text
toolcage_version = text "0.1.0"

unfoldable pub supported_protocols : List Text
unfolding text
supported_protocols = text "2025-06-18" ∷ text "2025-03-26" ∷ text "2024-11-05" ∷ []

unfoldable pub protocol_fallback : Text
unfolding text
protocol_fallback = text "2025-06-18"

abbrev pub code_guest_failed : Value
code_guest_failed = minus 32000

abbrev pub code_not_initialized : Value
code_not_initialized = minus 32002

abbrev pub code_policy_denied : Value
code_policy_denied = minus 32003

abbrev pub code_budget_exceeded : Value
code_budget_exceeded = minus 32005

abbrev pub code_invalid_request : Value
code_invalid_request = minus 32600

abbrev pub code_method_not_found : Value
code_method_not_found = minus 32601

abbrev pub code_invalid_params : Value
code_invalid_params = minus 32602

abbrev pub code_parse_error : Value
code_parse_error = minus 32700

abbrev pub guest_call_id : ℕ
guest_call_id = 2

abbrev pub guest_init_id : ℕ
guest_init_id = 1

pub data Incoming : Type 0 where
  request : (id : Value) (method : Text) (params : Value) → Incoming
  notification : (method : Text) (params : Value) → Incoming
  malformed parse_error : (detail : Text) → Incoming

-- The match on the id, at the end of `parse_line`.
abbrev pub incoming : Option Value → Text → Value → Incoming
incoming (some id) method params = request id method params
incoming none method params = notification method params

-- `!= Some("2.0")`
abbrev pub is_text : Option Text → Text → Bool
is_text none t = false
is_text (some s) t = text_eq s t

-- `parse_line` behind the match on the kind of value.
unfoldable pub parse_object : TreeMap Value → Incoming
parse_object o =
    if not (is_text (get (text "jsonrpc") o >>= as_str) (text "2.0"))
    then malformed (text "jsonrpc must be the string \"2.0\"")
    else elim (get (text "method") o >>= as_str) [
      | none ↦ malformed (text "method must be a string")
      | some method ↦ incoming (get (text "id") o) method (or_null (get (text "params") o))
    ]

unfoldable pub parse_value : Value → Incoming
parse_value (array vs) =
    malformed (text "batch requests are not supported (removed in MCP 2025-06-18)")
parse_value (object o) = parse_object (members o)
parse_value _ = malformed (text "expected a JSON object")

module _ (serde : Serde) where
  unfoldable pub parse_line : Text → Incoming
  parse_line line = elim (serde.from_str line) [
    | err e ↦ parse_error (text "invalid JSON: " ++ e)
    | ok v ↦ parse_value v
  ]

-- The message builders, before `to_string`.
unfoldable pub result_message : Value → Value → Value
result_message id result =
    json ((text "jsonrpc", string (text "2.0")) ∷ (text "id", id) ∷ (text "result", result) ∷ [])

abbrev insert_data : Option Value → TreeMap Value → TreeMap Value
insert_data none m = m
insert_data (some d) m = insert (text "data") d m

unfoldable pub error_object : Value → Text → Option Value → Value
error_object code message data' =
    object_of
      (insert_data data' (insert (text "message") (string message) (insert (text "code") code [])))

-- `error_object_line` passes a guest's error object through.
unfoldable pub error_message : Value → Value → Value
error_message id error =
    json ((text "jsonrpc", string (text "2.0")) ∷ (text "id", id) ∷ (text "error", error) ∷ [])

unfoldable pub request_message : ℕ → Text → Value → Value
request_message id method params = json (
    (text "jsonrpc", string (text "2.0"))
    ∷ (text "id", nat id)
    ∷ (text "method", string method)
    ∷ (text "params", params)
    ∷ [])

unfoldable pub notification_message : Text → Value
notification_message method =
    json ((text "jsonrpc", string (text "2.0")) ∷ (text "method", string method) ∷ [])

module _ (serde : Serde) where
  unfoldable pub result_line : Value → Value → Text
  result_line id result = serde.to_string (result_message id result)

  unfoldable pub error_line : Value → Value → Text → Option Value → Text
  error_line id code message data' =
      serde.to_string (error_message id (error_object code message data'))

  unfoldable pub error_object_line : Value → Value → Text
  error_object_line id error = serde.to_string (error_message id error)

-- The loop of `negotiate_protocol`.
unfoldable pub first_equal : Text → List Text → Text
first_equal r [] = protocol_fallback
first_equal r (p ∷ ps) = let rest = first_equal r ps in if text_eq p r then p else rest

unfoldable pub negotiate_protocol : Option Text → Text
unfolding first_equal
negotiate_protocol none = protocol_fallback
negotiate_protocol (some r) = first_equal r supported_protocols
