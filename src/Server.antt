-- ===== src/Server.antt =====
-- server.rs: the session. A handler returns the new session and its reply; the calls that it makes
-- of `Auditor::log` are kept in order in `audit`, and the world that the runner acts on in `world`.
pub mod Lines
pub mod Handlers
pub mod Replies
pub mod Handshake
pub mod Listing
pub mod Stamps
pub mod Records
pub mod Steps
pub mod Counts
pub mod Stamped
pub mod Safety
pub mod Privacy
mod Tests
use toolcage.Prelude.{
  ℕ, ◌+◌, ◌-◌, ◌<◌, Bytes, Text, text, text_eq, Bool, true, false, List, [], ◌∷◌, ◌++◌, map, Option,
  none, some, ltb, ◌==◌, if◌then◌else◌, length, take, drop, any, keep, Result, ok, err,
}
use toolcage.TreeMap.{TreeMap, insert, insert_all}
use toolcage.Json.{
  Value, null, bool, number, string, array, object, to_items, object_of, json, get_field, as_str,
  as_bool, nat, ◌>>=◌, or_null, Serde,
}
use toolcage.Rpc
use toolcage.Rpc.{
  Incoming, parse_line, result_line, error_line, error_object_line, negotiate_protocol,
  toolcage_version, code_guest_failed, code_not_initialized, code_policy_denied,
  code_invalid_request, code_method_not_found, code_invalid_params, code_parse_error,
}
use toolcage.Runner.{
  ToolDef, FailClass, fail_as_str, fail_code, fail_message, CallStats, CallOutcome, completed,
  failed, CallResult, Runner,
}
use toolcage.Policy.{
  Grant, Mount, mode_as_str, Reason, denied_by_policy, not_listed, Decision, Policy,
}
use toolcage.Policy.Decide.{decide, visible}
use toolcage.Audit.Sha256.{sha256_hex}
use toolcage.Paginate.Cursor.{Page, cursor_error_as_str, new_paginator, page}

-- One call of `Auditor::log`.
pub record Entry : Type 0 where
  pub event : Text
  pub fields : TreeMap Value

pub record Session (W : Type 0) : Type 0 where
  pub initialized : Bool
  pub calls : ℕ
  pub page_size : ℕ
  pub cursor_key : Bytes
  pub audit : List Entry
  pub world : W

-- `Session::new_paginated`
abbrev pub new_paginated : {W : Type 0} → ℕ → Bytes → W → Session W
new_paginated page_size cursor_key world = record {
  initialized = false;
  calls = 0;
  page_size = page_size;
  cursor_key = cursor_key;
  audit = [];
  world = world;
}

-- `audit.log(event, fields(json!({ … })))`
abbrev pub log : {W : Type 0} → Text → List (Text × Value) → Session W → Session W
log event fs s = record s {
  audit = s.audit ++ record { event = event; fields = insert_all fs [] } ∷ [];
}

abbrev pub log_map : {W : Type 0} → Text → TreeMap Value → Session W → Session W
log_map event m s = record s { audit = s.audit ++ record { event = event; fields = m } ∷ [] }

-- `json!` of an optional string.
abbrev pub string_or_null : Option Text → Value
string_or_null none = null
string_or_null (some t) = string t

-- `format!("{}:{}", m.guest_path, m.mode.as_str())`
abbrev mount_label : Mount → Value
mount_label m = string (m.guest_path ++ b':' ∷ mode_as_str m.mode)

abbrev pub insert_some :
    {A : Type 0} → Text → (A → Value) → Option A → TreeMap Value → TreeMap Value
insert_some k f none m = m
insert_some k f (some a) m = insert k (f a) m

-- What `handle_call` logs of the arguments: their size and hash.
abbrev pub Digested : Type 0
Digested = ℕ × Text

unfoldable pub digest_args : Serde → Value → Digested
digest_args serde arguments =
    let args_bytes = serde.to_string arguments in (length args_bytes, sha256_hex args_bytes)

unfoldable pub deny_fields : Text → Text → Digested → List (Text × Value)
deny_fields name decision (size, hash) =
    (text "tool", string name)
    ∷ (text "decision", string decision)
    ∷ (text "args_bytes", nat size)
    ∷ (text "args_sha256", string hash)
    ∷ []

unfoldable pub allow_fields : Text → Grant → CallStats → Digested → TreeMap Value
allow_fields name grant stats (size, hash) = insert_some (text "exit_code") number stats.exit_code (
    insert_some (text "fuel_used") nat stats.fuel_used (
      insert_all
        ((text "tool", string name)
          ∷ (text "decision", string (text "allow"))
          ∷ (text "args_bytes", nat size)
          ∷ (text "args_sha256", string hash)
          ∷ (text "duration_ms", nat stats.duration_ms)
          ∷ (text "stdout_bytes", nat stats.stdout_bytes)
          ∷ (text "stderr_bytes", nat stats.stderr_bytes)
          ∷ (text "garbage_lines", nat stats.garbage_lines)
          ∷ (text "timeout_ms", nat grant.limits.timeout_ms)
          ∷ (text "mounts", array (to_items (map mount_label grant.mounts)))
          ∷ [])
        []))

-- `guest_result.get("isError").and_then(Value::as_bool).unwrap_or(false)`
abbrev is_error_flag : Value → Bool
is_error_flag guest_result = elim (get_field (text "isError") guest_result >>= as_bool) [
  | none ↦ false
  | some b ↦ b
]

-- `debug_str` is `{:?}` on strings.
module _ (debug_str : Text → Text) where
  unfoldable pub reason_text : Reason → Text
  reason_text (denied_by_policy tool) =
      text "tool " ++ (debug_str tool ++ text " is denied by policy")
  reason_text (not_listed tool) =
      text "tool " ++ (debug_str tool ++ text " is not listed in the policy (default deny)")

module _ (serde : Serde) where
  unfoldable pub result_fields : Value → TreeMap Value → TreeMap Value
  result_fields guest_result fields =
      let result_bytes = serde.to_string guest_result in
      insert (text "result_sha256") (string (sha256_hex result_bytes)) (
        insert (text "result_bytes") (nat (length result_bytes)) (
          insert (text "is_error") (bool (is_error_flag guest_result))
            (insert (text "outcome") (string (text "ok")) fields)))

  -- The last match of `handle_call`: the audit fields and the reply.
  unfoldable pub settle : Value → CallOutcome → TreeMap Value → TreeMap Value × Text
  settle id (completed response) fields = elim (get_field (text "result") response) [
    | some guest_result ↦ (result_fields guest_result fields, result_line serde id guest_result)
    | none ↦ elim (get_field (text "error") response) [
      | some guest_error ↦ (
        insert (text "guest_error_code") (or_null (get_field (text "code") guest_error))
            (insert (text "outcome") (string (text "guest_rpc_error")) fields),
        error_object_line serde id guest_error,
      )
      | none ↦ (
        insert (text "outcome") (string (text "invalid_guest_response")) fields,
        error_line serde id code_guest_failed (text "guest response had neither result nor error")
            none,
      )
    ]
  ]
  settle id (failed class detail) fields = (
    insert (text "outcome") (string (fail_as_str class)) fields,
    error_line serde id (fail_code class) (fail_message class) (
        some (
          json ((text "class", string (fail_as_str class)) ∷ (text "detail", string detail) ∷ []))),
  )
