-- ===== src/Rpc/Transcript.antt =====
-- The input of a guest, in rpc.rs: three messages, one to a line.
use toolcage.Prelude.{
  ℕ, ◌≡◌, ◌≢◌, refl, ap, ◌∙◌, Bytes, ok, Text, text, text_eq, List, [], ◌∷◌, ◌++◌, All, split_on,
  split_on-append,
}
use toolcage.TreeMap.{get, insert, insert_all}
use toolcage.Json.{Value, null, string, nat, json, Serde}
use toolcage.Rpc.{
  Incoming, request, notification, parse_line, parse_value, parse_object, request_message,
  notification_message, guest_init_id, guest_call_id, toolcage_version,
}

unfoldable pub initialize_params : Text → Value
initialize_params protocol = json (
    (text "protocolVersion", string protocol)
    ∷ (text "capabilities", json [])
    ∷ (
      text "clientInfo",
      json (
          (text "name", string (text "toolcage")) ∷ (text "version", string toolcage_version) ∷ []),
    )
    ∷ [])

unfoldable pub to_transcript : List Text → Bytes
to_transcript [] = []
to_transcript (l ∷ lines) = l ++ b'\n' ∷ to_transcript lines

-- `if arguments.is_null() { json!({}) } else { arguments.clone() }`
abbrev pub object_or_empty : Value → Value
object_or_empty null = json []
object_or_empty v = v

module _ (serde : Serde) where
  unfoldable pub request_line : ℕ → Text → Value → Text
  request_line id method params = serde.to_string (request_message id method params)

  unfoldable pub notification_line : Text → Text
  notification_line method = serde.to_string (notification_message method)

  abbrev pub probe_lines : Text → List Text
  probe_lines protocol =
      request_line guest_init_id (text "initialize") (initialize_params protocol)
      ∷ notification_line (text "notifications/initialized")
      ∷ request_line guest_call_id (text "tools/list") (json [])
      ∷ []

  unfoldable pub guest_transcript_probe : Text → Bytes
  guest_transcript_probe protocol = to_transcript (probe_lines protocol)

  abbrev pub call_lines : Text → Text → Value → List Text
  call_lines protocol tool arguments =
      request_line guest_init_id (text "initialize") (initialize_params protocol)
      ∷ notification_line (text "notifications/initialized")
      ∷ request_line guest_call_id (text "tools/call")
          (json ((text "name", string tool) ∷ (text "arguments", object_or_empty arguments) ∷ []))
      ∷ []

  unfoldable pub guest_transcript_call : Text → Text → Value → Bytes
  guest_transcript_call protocol tool arguments = to_transcript (call_lines protocol tool arguments)

abbrev pub IsOneLine : Text → Type 0
IsOneLine t = All (λ b. b ≢ b'\n') t

to_transcript-split :
    (lines : List Text)
    → All IsOneLine lines
    → split_on b'\n' (to_transcript lines) ≡ lines ++ [] ∷ []
unfolding to_transcript split_on
to_transcript-split [] h = refl
to_transcript-split (l ∷ lines) (p, h) =
    split_on-append b'\n' l (to_transcript lines) p
    ∙ ap (λ ls. l ∷ ls) (to_transcript-split lines h)

-- What `initialize`, `notifications/initialized` and the payload are to a server that reads them.
pub record Reads (serde : Serde) (protocol : Text) (payload : Incoming) (lines : List Text)
    : Type 0 where
  pub init : Text
  pub ready : Text
  pub last : Text
  pub lines_are : lines ≡ init ∷ ready ∷ last ∷ [] ∷ []
  pub init_is :
      parse_line serde init
      ≡ request (nat guest_init_id) (text "initialize") (initialize_params protocol)
  pub ready_is : parse_line serde ready ≡ notification (text "notifications/initialized") null
  pub last_is : parse_line serde last ≡ payload

-- serde prints a value on one line, and reads it back.
abbrev pub IsPrinted : Serde → Value → Type 0
IsPrinted serde v = IsOneLine (serde.to_string v) × (serde.from_str (serde.to_string v) ≡ ok v)

abbrev init_message : Text → Value
init_message protocol =
    request_message guest_init_id (text "initialize") (initialize_params protocol)

abbrev ready_message : Value
ready_message = notification_message (text "notifications/initialized")

abbrev pub call_params : Text → Value → Value
call_params tool arguments =
    json ((text "name", string tool) ∷ (text "arguments", object_or_empty arguments) ∷ [])

parse_value-request_message :
    (id : ℕ) (method : Text) (params : Value)
    → parse_value (request_message id method params) ≡ request (nat id) method params
unfolding parse_value parse_object request_message json insert_all insert get text text_eq
    toolcage.Prelude.cmp
parse_value-request_message id method params = refl

parse_value-notification_message :
    (method : Text) → parse_value (notification_message method) ≡ notification method null
unfolding parse_value parse_object notification_message json insert_all insert get text text_eq
    toolcage.Prelude.cmp
parse_value-notification_message method = refl

module _ (serde : Serde) where
  parse_line-printed :
      (v : Value) → IsPrinted serde v → parse_line serde (serde.to_string v) ≡ parse_value v
  unfolding parse_line
  parse_line-printed v (o, back) = rw (back, parse_line) refl

  three_lines :
      (protocol method : Text) (params : Value)
      → let payload = request_message guest_call_id method params in
        All (IsPrinted serde) (init_message protocol ∷ ready_message ∷ payload ∷ [])
        → Reads serde protocol (request (nat guest_call_id) method params) (
            split_on b'\n' (
              to_transcript (
                serde.to_string (init_message protocol)
                ∷ serde.to_string ready_message
                ∷ serde.to_string payload
                ∷ [])))
  three_lines protocol method params (p, (q, (r, u))) =
      let payload = request_message guest_call_id method params in
      record {
        init = serde.to_string (init_message protocol);
        ready = serde.to_string ready_message;
        last = serde.to_string payload;
        lines_are =
            to_transcript-split
              (serde.to_string (init_message protocol)
                ∷ serde.to_string ready_message
                ∷ serde.to_string payload
                ∷ [])
              (p.0, (q.0, (r.0, tt)));
        init_is = parse_line-printed (init_message protocol) p ∙ parse_value-request_message _ _ _;
        ready_is = parse_line-printed ready_message q ∙ parse_value-notification_message _;
        last_is = parse_line-printed payload r ∙ parse_value-request_message _ _ _;
      }

-- A guest that splits the input of a call at newlines reads `initialize` with id 1, the
-- notification `notifications/initialized`, `tools/call` with id 2, the tool and the arguments (an
-- empty object if they are null), and an empty line; if serde prints these three messages on one
-- line each and reads back what it printed.
pub guest_transcript_call-Reads :
    (serde : Serde) (protocol tool : Text) (arguments : Value)
    → All (IsPrinted serde) (
        request_message guest_init_id (text "initialize") (initialize_params protocol)
        ∷ notification_message (text "notifications/initialized")
        ∷ request_message guest_call_id (text "tools/call") (call_params tool arguments)
        ∷ [])
    → Reads serde protocol
        (request (nat guest_call_id) (text "tools/call") (call_params tool arguments))
        (split_on b'\n' (guest_transcript_call serde protocol tool arguments))
unfolding guest_transcript_call request_line notification_line
guest_transcript_call-Reads serde protocol tool arguments =
    three_lines serde protocol (text "tools/call") (call_params tool arguments)

-- Likewise for the probe, whose last message is `tools/list` with id 2 and no parameters.
pub guest_transcript_probe-Reads :
    (serde : Serde) (protocol : Text)
    → All (IsPrinted serde) (
        request_message guest_init_id (text "initialize") (initialize_params protocol)
        ∷ notification_message (text "notifications/initialized")
        ∷ request_message guest_call_id (text "tools/list") (json [])
        ∷ [])
    → Reads serde protocol
        (request (nat guest_call_id) (text "tools/list") (json []))
        (split_on b'\n' (guest_transcript_probe serde protocol))
unfolding guest_transcript_probe request_line notification_line
guest_transcript_probe-Reads serde protocol =
    three_lines serde protocol (text "tools/list") (json [])
