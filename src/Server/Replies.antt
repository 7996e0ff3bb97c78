-- ===== src/Server/Replies.antt =====
-- Which lines the `Session` of server.rs answers, and with what kind of message.
use toolcage.Prelude.{
  ◌≡◌, ◌⊎◌, refl, Text, text, text_eq, [], ◌∷◌, true, false, Option, none, some, not, if-cases,
  Option-cases, Result-cases, Bool-cases, inl, inr, Result, ok, err,
}
use toolcage.Json.{Value, null, string, json, get_field, as_str, ◌>>=◌, Serde}
use toolcage.Rpc.{
  Incoming, request, notification, malformed, parse_error, parse_line, result_line, error_line,
  error_object_line, code_parse_error, code_invalid_request,
}
use toolcage.Runner.{CallOutcome, completed, failed, Runner}
use toolcage.Policy.{Decision, Policy}
use toolcage.TreeMap.{TreeMap}
use toolcage.Paginate.Cursor.{CursorError, Page}
use toolcage.Server.{Session, settle}
use toolcage.Server.Lines.{is_blank}
use toolcage.Server.Handlers.{
  Answer, not_initialized, cursor_param, is_known, count_call, answer_page, handle_list, run_tool,
  decided, call_named, handle_call, handle_initialize, handle_request, handle_incoming, handle_line,
}

module _ (serde : Serde) where
  -- A JSON-RPC response with this id: a result, an error of the server, or an error of the guest.
  pub data IsReply (id : Value) : Text → Type 0 where
    result : (v : Value) → IsReply id (result_line serde id v)
    error : (code : Value) (m : Text) (d : Option Value) → IsReply id (error_line serde id code m d)
    guest_error : (v : Value) → IsReply id (error_object_line serde id v)

  -- What is written for a message.
  pub data IsAnswer : Incoming → Option Text → Type 0 where
    answered :
        (id : Value) (method : Text) (params : Value) (reply : Text)
        → IsReply id reply
        → IsAnswer (request id method params) (some reply)
    silent : (method : Text) (params : Value) → IsAnswer (notification method params) none
    bad_request :
        (detail : Text)
        → IsAnswer
            (malformed detail)
            (some (error_line serde null code_invalid_request detail none))
    unreadable :
        (detail : Text)
        → IsAnswer (parse_error detail) (
            some (
              error_line serde null code_parse_error
                (text "parse error")
                (some (json ((text "detail", string detail) ∷ [])))))

  settle-IsReply :
      (id : Value) (outcome : CallOutcome) (fs : TreeMap Value)
      → IsReply id (settle serde id outcome fs).1
  unfolding settle
  settle-IsReply id (failed class detail) fs = error _ _ _
  settle-IsReply id (completed response) fs =
      elim (Option-cases (get_field (text "result") response)) [
        | inr (v, e) ↦ rw (e, settle) (result _)
        | inl e ↦ elim (Option-cases (get_field (text "error") response)) [
          | inr (v, h) ↦ rw (e, h, settle) (guest_error _)
          | inl h ↦ rw (e, h, settle) (error _ _ _)
        ]
      ]

module _ {W : Type 0} (serde : Serde) (debug_str : Text → Text) (runner : Runner W)
    (policy : Policy) where
  answer_page-IsReply :
      (id : Value) (s : Session W) (g : Result CursorError Page)
      → IsReply serde id (answer_page serde debug_str runner policy id s g).1
  unfolding answer_page
  answer_page-IsReply id s (ok g) = result _
  answer_page-IsReply id s (err e) = error _ _ _

  handle_list-IsReply :
      (id params : Value) (s : Session W)
      → IsReply serde id (handle_list serde debug_str runner policy id params s).1
  unfolding handle_list
  handle_list-IsReply id params s =
      elim (Result-cases (cursor_param (get_field (text "cursor") params))) [
        | inl (cursor, e) ↦ rw (e, handle_list) (answer_page-IsReply id s _)
        | inr (u, e) ↦ rw (e, handle_list) (error _ _ _)
      ]

  decided-IsReply :
      (id : Value) (name : Text) (arguments : Value) (s : Session W) (d : Decision)
      → IsReply serde id (decided serde debug_str runner policy id name arguments s d).1
  unfolding decided run_tool
  decided-IsReply id name arguments s (Decision.allow g) = settle-IsReply serde id _ _
  decided-IsReply id name arguments s (Decision.deny reason listed) = error _ _ _

  call_named-IsReply :
      (id : Value) (name : Text) (arguments : Value) (s : Session W)
      → IsReply serde id (call_named serde debug_str runner policy id name arguments s).1
  unfolding call_named
  call_named-IsReply id name arguments s =
      if-cases {A = Answer W} (λ a. IsReply serde id a.1) (not (is_known runner name))
        (λ _. error _ _ _) (λ _. decided-IsReply id name arguments (count_call s) _)

  handle_call-IsReply :
      (id params : Value) (s : Session W)
      → IsReply serde id (handle_call serde debug_str runner policy id params s).1
  unfolding handle_call
  handle_call-IsReply id params s =
      elim (Option-cases (get_field (text "name") params >>= as_str)) [
        | inl e ↦ rw (e, handle_call) (error _ _ _)
        | inr (name, e) ↦ rw (e, handle_call) (call_named-IsReply id name _ s)
      ]

  handle_request-IsReply :
      (id : Value) (method : Text) (params : Value) (s : Session W)
      → IsReply serde id (handle_request serde debug_str runner policy id method params s).1
  unfolding handle_request handle_initialize not_initialized
  handle_request-IsReply id method params s =
      let P : Answer W → Type 0 = λ a. IsReply serde id a.1 in
      if-cases P (text_eq method (text "initialize")) (λ _. result _)
        (λ _.
          if-cases P (text_eq method (text "ping")) (λ _. result _)
            (λ _.
              if-cases P (text_eq method (text "tools/list"))
                (λ _.
                  if-cases P (not s.initialized) (λ _. error _ _ _)
                    (λ _. handle_list-IsReply id params s))
                (λ _.
                  if-cases P (text_eq method (text "tools/call"))
                    (λ _.
                      if-cases P (not s.initialized) (λ _. error _ _ _)
                        (λ _. handle_call-IsReply id params s))
                    (λ _. error _ _ _))))

  handle_incoming-IsAnswer :
      (m : Incoming) (s : Session W)
      → IsAnswer serde m (handle_incoming serde debug_str runner policy m s).1
  unfolding handle_incoming
  handle_incoming-IsAnswer (parse_error detail) s = unreadable detail
  handle_incoming-IsAnswer (malformed detail) s = bad_request detail
  handle_incoming-IsAnswer (notification method params) s = silent method params
  handle_incoming-IsAnswer (request id method params) s =
      answered id method params _ (handle_request-IsReply id method params s)

  -- A line that is not blank is answered by what it parses to: each request gets one response, with
  -- the request's id; a notification gets none; a message that is not well formed gets an error
  -- with the id null. A blank line gets no answer and leaves the session as it is.
  pub handle_line-IsAnswer :
      (line : Text) (s : Session W)
      → ((is_blank line ≡ true) × (handle_line serde debug_str runner policy line s ≡ (s, none)))
        ⊎ ((is_blank line ≡ false)
            × IsAnswer serde
                (parse_line serde line)
                (handle_line serde debug_str runner policy line s).1)
  unfolding handle_line
  handle_line-IsAnswer line s = elim (Bool-cases (is_blank line)) [
    | inl e ↦ inl (e, rw (e, handle_line) refl)
    | inr e ↦ inr (e, rw (e, handle_line) (handle_incoming-IsAnswer (parse_line serde line) s))
  ]
