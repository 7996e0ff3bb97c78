-- ===== src/Server/Handlers.antt =====
-- The handlers of `Session` in server.rs, from one input line to at most one output line.
use toolcage.Prelude.{
  ℕ, ◌+◌, ◌-◌, Text, text, text_eq, Bool, true, false, not, List, [], ◌∷◌, ◌++◌, map, Option, none,
  some, ltb, if◌then◌else◌, any, keep, Result, ok, err, u64,
}
use toolcage.TreeMap.{TreeMap, insert}
use toolcage.Json.{
  Value, null, bool, string, array, to_items, object_of, json, get_field, as_str, nat, ◌>>=◌,
  or_null, Serde,
}
use toolcage.Rpc.{
  Incoming, request, notification, malformed, parse_error, parse_line, result_line, error_line,
  negotiate_protocol, toolcage_version, code_not_initialized, code_policy_denied,
  code_invalid_request, code_method_not_found, code_invalid_params, code_parse_error,
}
use toolcage.Runner.{ToolDef, Runner}
use toolcage.Policy.{Grant, Decision, Policy}
use toolcage.Policy.Decide.{decide, visible}
use toolcage.Paginate.Cursor.{
  Page, CursorError, Paginator, cursor_error_as_str, new_paginator, page,
}
use toolcage.Paginate.Walk.{slice}
use toolcage.Server.{
  Session, log, log_map, string_or_null, digest_args, deny_fields, allow_fields, settle,
  reason_text,
}
use toolcage.Server.Lines.{is_blank}

-- A handler's result: the session after it and the reply.
abbrev pub Answer : Type 0 → Type 0
Answer W = Session W × Text

-- The match on `params.get("cursor")`; the error is `not_a_string`.
unfoldable pub cursor_param : Option Value → Result Unit (Option Text)
cursor_param none = ok none
cursor_param (some null) = ok none
cursor_param (some (string c)) = ok (some c)
cursor_param (some _) = err tt

abbrev insert_cursor : Option Text → TreeMap Value → TreeMap Value
insert_cursor none m = m
insert_cursor (some c) m = insert (text "nextCursor") (string c) m

abbrev is_some : Option Text → Bool
is_some none = false
is_some (some c) = true

unfoldable pub list_result : List ToolDef → Page → Value
list_result tools g = object_of (
    insert_cursor g.next_cursor
      (insert (text "tools") (array (to_items (map (λ t. t.raw) (slice g tools)))) []))

unfoldable pub list_fields : ℕ → Page → ℕ → List (Text × Value)
list_fields total g page_size =
    (text "outcome", string (text "ok"))
    ∷ (text "total_visible", nat total)
    ∷ (text "page_start", nat g.start)
    ∷ (text "page_len", nat (g.end - g.start))
    ∷ (text "has_next", bool (is_some g.next_cursor))
    ∷ (text "paginated", bool (ltb 0 page_size))
    ∷ []

unfoldable pub bad_cursor_fields : Text → List (Text × Value)
bad_cursor_fields reason =
    (text "outcome", string (text "invalid_cursor")) ∷ (text "reason", string reason) ∷ []

unfoldable pub initialize_result : Text → Value
initialize_result protocol = json (
    (text "protocolVersion", string protocol)
    ∷ (text "capabilities", json ((text "tools", json []) ∷ []))
    ∷ (
      text "serverInfo",
      json (
          (text "name", string (text "toolcage")) ∷ (text "version", string toolcage_version) ∷ []),
    )
    ∷ [])

-- `if listed { "deny_policy" } else { "deny_unlisted" }`
abbrev pub deny_word : Bool → Text
deny_word listed = if listed then text "deny_policy" else text "deny_unlisted"

abbrev pub count_call : {W : Type 0} → Session W → Session W
count_call s = record s { calls = u64 (s.calls + 1) }

module _ {W : Type 0} (runner : Runner W) where
  -- `runner.probe().tools.iter().any(|t| t.name == name)`
  unfoldable pub is_known : Text → Bool
  is_known name = any (λ t. text_eq t.name name) runner.probe.tools

module _ {W : Type 0} (runner : Runner W) (policy : Policy) where
  unfoldable pub visible_tool_defs : List ToolDef
  visible_tool_defs = keep (λ t. visible policy t.name) runner.probe.tools

  unfoldable pub session_paginator : Session W → Paginator
  session_paginator s = new_paginator s.cursor_key (map (λ t. t.name) visible_tool_defs) s.page_size

module _ (serde : Serde) where
  unfoldable pub not_initialized : Value → Text
  not_initialized id =
      error_line serde id code_not_initialized
        (text "server not initialized (send initialize, then notifications/initialized)") none

module _ {W : Type 0} (serde : Serde) (debug_str : Text → Text) (runner : Runner W)
    (policy : Policy) where
  -- The match on the page of `handle_list`.
  unfoldable pub answer_page : Value → Session W → Result CursorError Page → Answer W
  answer_page id s (ok g) = (
    log (text "tools_list") (list_fields (session_paginator runner policy s).total g s.page_size) s,
    result_line serde id (list_result (visible_tool_defs runner policy) g),
  )
  answer_page id s (err e) = (
    log (text "tools_list") (bad_cursor_fields (cursor_error_as_str e)) s,
    error_line serde id code_invalid_params (text "invalid or expired tools/list cursor")
        (some (json ((text "reason", string (cursor_error_as_str e)) ∷ []))),
  )

  unfoldable pub handle_list : Value → Value → Session W → Answer W
  unfolding answer_page
  handle_list id params s = elim (cursor_param (get_field (text "cursor") params)) [
    | err u ↦ (
      log (text "tools_list") (bad_cursor_fields (text "not_a_string")) s,
      error_line serde id code_invalid_params (text "tools/list cursor must be a string") none,
    )
    | ok cursor ↦ answer_page id s (page (session_paginator runner policy s) cursor)
  ]

  -- `handle_call` from the call of the runner on.
  unfoldable pub run_tool : Value → Text → Value → Grant → Session W → Answer W
  run_tool id name arguments grant s =
      let (result, world) = runner.call name arguments grant s.world in
      let (audit_fields, reply) =
        settle serde id result.outcome
          (allow_fields name grant result.stats (digest_args serde arguments)) in
      (log_map (text "call") audit_fields (record s { world = world }), reply)

  unfoldable pub decided : Value → Text → Value → Session W → Decision → Answer W
  decided id name arguments s (Decision.allow grant) = run_tool id name arguments grant s
  decided id name arguments s (Decision.deny reason listed) = (
    log (text "call") (deny_fields name (deny_word listed) (digest_args serde arguments)) s,
    error_line serde id code_policy_denied (reason_text debug_str reason) none,
  )

  -- `handle_call` from the counter on.
  unfoldable pub call_named : Value → Text → Value → Session W → Answer W
  unfolding decided
  call_named id name arguments s =
      if not (is_known runner name)
      then (
        log (text "call")
            (deny_fields name (text "deny_unknown_tool") (digest_args serde arguments))
            (count_call s),
        error_line serde id code_invalid_params (text "unknown tool: " ++ name) none,
      )
      else decided id name arguments (count_call s) (decide policy name)

  unfoldable pub handle_call : Value → Value → Session W → Answer W
  handle_call id params s = elim (get_field (text "name") params >>= as_str) [
    | none ↦ (
      s,
      error_line serde id code_invalid_params (text "tools/call requires a string params.name")
          none,
    )
    | some name ↦ call_named id name (or_null (get_field (text "arguments") params)) s
  ]

  unfoldable pub handle_initialize : Value → Value → Session W → Answer W
  handle_initialize id params s =
      let requested = get_field (text "protocolVersion") params >>= as_str in
      let protocol = negotiate_protocol requested in
      (
        log (text "client_initialize")
            ((text "protocol", string protocol) ∷ (text "requested", string_or_null requested) ∷ [])
            s,
        result_line serde id (initialize_result protocol),
      )

  unfoldable pub handle_request : Value → Text → Value → Session W → Answer W
  handle_request id method params s =
      if text_eq method (text "initialize")
      then handle_initialize id params s
      else if text_eq method (text "ping")
      then (s, result_line serde id (json []))
      else if text_eq method (text "tools/list")
      then (if not s.initialized then (s, not_initialized serde id) else handle_list id params s)
      else if text_eq method (text "tools/call")
      then (if not s.initialized then (s, not_initialized serde id) else handle_call id params s)
      else (s, error_line serde id code_method_not_found (text "method not found: " ++ method) none)

  unfoldable pub handle_incoming : Incoming → Session W → Session W × Option Text
  handle_incoming (parse_error detail) s = (
    s,
    some (
        error_line serde null code_parse_error (text "parse error")
          (some (json ((text "detail", string detail) ∷ [])))),
  )
  handle_incoming (malformed detail) s =
      (s, some (error_line serde null code_invalid_request detail none))
  handle_incoming (notification method params) s = (
    (if text_eq method (text "notifications/initialized")
        then record s { initialized = true }
        else s),
    none,
  )
  handle_incoming (request id method params) s =
      let (s', reply) = handle_request id method params s in (s', some reply)

  -- The line that is written, if any; the errors of `out` are dropped.
  unfoldable pub handle_line : Text → Session W → Session W × Option Text
  unfolding handle_incoming
  handle_line line s =
      if is_blank line then (s, none) else handle_incoming (parse_line serde line) s

  -- The client loop: a line after the other.
  unfoldable pub handle_lines : List Text → Session W → Session W × List (Option Text)
  handle_lines [] s = (s, [])
  handle_lines (line ∷ lines) s =
      let (s', reply) = handle_line line s in
      let (s'', replies) = handle_lines lines s' in (s'', reply ∷ replies)

-- At the end of input, `elapsed` milliseconds after the start.
unfoldable pub finish : {W : Type 0} → ℕ → Session W → Session W
finish elapsed s =
    log (text "session_end")
      ((text "calls", nat s.calls) ∷ (text "duration_ms", nat (u64 elapsed)) ∷ []) s
