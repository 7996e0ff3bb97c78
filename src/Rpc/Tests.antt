-- ===== src/Rpc/Tests.antt =====
-- The theorems about messages, transcripts and a guest's output, at concrete input.
use toolcage.Prelude.{
  ◌≡◌, ◌≢◌, ◌+◌, ◌↔◌, refl, Bytes, Text, text, text_eq, Bool, true, false, List, [], ◌∷◌, ◌++◌, All,
  Option, none, some, length, Result, ok, err, if◌then◌else◌, split_on, arith,
}
use toolcage.TreeMap.{get, insert, insert_all}
use toolcage.Json.{Value, null, number, pos_int, nat, json, get_field, Serde}
use toolcage.Rpc.{
  request, guest_call_id, guest_init_id, request_message, notification_message, parse_line,
  negotiate_protocol,
}
use toolcage.Rpc.Parsed.{
  IsParsed, parse_line-IsParsed, is_supported, IsNegotiated, negotiate_protocol-IsNegotiated,
}
use toolcage.Rpc.Utf8.{is_utf8}
use toolcage.Rpc.Extract.{extract_response, trim_ascii, parse_json}
use toolcage.Rpc.Scanned.{first_answer, object_lines, solid_lines, extract_response_lem}
use toolcage.Rpc.Transcript.{
  Reads, initialize_params, call_params, guest_transcript_call, guest_transcript_call-Reads,
}

abbrev tag_of_id : Option Value → Text
tag_of_id (some (number (pos_int n))) = (48 + n) ∷ []
tag_of_id _ = text "n"

-- It prints a message as its id, and reads back the three messages of a transcript.
abbrev reader : Value → Serde
reader payload = record {
  to_string = λ v. tag_of_id (get_field (text "id") v);
  from_str = λ t.
      if text_eq t (text "1")
      then ok (
          request_message guest_init_id (text "initialize") (initialize_params (text "2025-06-18")))
      else if text_eq t (text "2")
      then ok payload
      else if text_eq t (text "n")
      then ok (notification_message (text "notifications/initialized"))
      else err (text "unexpected");
}

abbrev call_payload : Value
call_payload = request_message guest_call_id (text "tools/call") (call_params (text "cat") null)

abbrev probe_payload : Value
probe_payload = request_message guest_call_id (text "tools/list") (json [])

run : Unit {0}
unfolding text text_eq get insert insert_all json get_field request_message notification_message
    toolcage.Prelude.cmp split_on extract_response is_utf8 trim_ascii parse_json
run = tt

guest_transcript_call-Reads_example :
    Reads
      (reader call_payload)
      (text "2025-06-18")
      (request (nat 2) (text "tools/call") (call_params (text "cat") null))
      (split_on b'\n'
        (guest_transcript_call (reader call_payload) (text "2025-06-18") (text "cat") null))
unfolding run
guest_transcript_call-Reads_example =
    guest_transcript_call-Reads (reader call_payload) (text "2025-06-18") (text "cat") null
      (((omega arith, tt), refl), (((omega arith, tt), refl), (((omega arith, tt), refl), tt)))

parse_line-IsParsed_example :
    IsParsed (reader null) (text "1") (parse_line (reader null) (text "1"))
parse_line-IsParsed_example = parse_line-IsParsed (reader null) (text "1")

negotiate_protocol-IsNegotiated_example :
    (is_supported (negotiate_protocol (some (text "2024-11-05"))) ≡ true)
    × IsNegotiated (some (text "2024-11-05")) (negotiate_protocol (some (text "2024-11-05")))
negotiate_protocol-IsNegotiated_example = negotiate_protocol-IsNegotiated (some (text "2024-11-05"))

abbrev answer : Value
answer = json ((text "id", nat 2) ∷ (text "result", null) ∷ [])

-- Noise, a message with the other id, and the message itself.
abbrev stdout : Bytes
stdout = text "hello\n\n 1 \n2\r\n"

extract_response_lem_example :
    let t = extract_response (reader answer) stdout 2 in
    (t.found ≡ first_answer 2 (object_lines (reader answer) stdout))
    × ((t.rpc ≡ length (object_lines (reader answer) stdout))
        × (t.rpc + t.garbage ≡ length (solid_lines stdout)))
unfolding text
extract_response_lem_example = extract_response_lem (reader answer) stdout 2 (omega arith)
