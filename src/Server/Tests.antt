-- ===== src/Server/Tests.antt =====
-- A session over a runner with three tools, under the policy file of Policy/Tests.antt, and the
-- theorems about sessions there.
use toolcage.Prelude.{
  ℕ, ◌+◌, ◌^◌, ◌<◌, ◌≡◌, ◌≢◌, ◌↔◌, ◌⊎◌, refl, ap, Text, text, text_eq, Bool, true, false, List, [],
  ◌∷◌, ◌++◌, All, map, Option, none, some, length, Result, ok, err, u64, replicate, if◌then◌else◌,
  arith,
}
use toolcage.TreeMap.{get, insert, insert_all}
use toolcage.Json.{Value, null, string, json, nat, Serde}
use toolcage.Rpc.{
  Incoming, request, parse_value, parse_object, parse_line, request_message, notification_message,
}
use toolcage.Runner.{ToolDef, timeout, failed, CallStats, Runner}
use toolcage.Policy.Decide.{decide, visible}
use toolcage.Policy.Decisions.{IsDefaultsOf}
use toolcage.Policy.Tests.{file, policy, plain, file_loads, file_IsSorted}
use toolcage.Server.{Session, new_paginated, digest_args}
use toolcage.Server.Handlers.{handle_line, handle_lines, finish, visible_tool_defs}
use toolcage.Server.Lines.{is_blank}
use toolcage.Server.Steps.{Step, IsReadyLine, handle_line-Step}
use toolcage.Server.Counts.{calls_noted, calls-counted}
use toolcage.Server.Safety.{Runs, handle_lines-Runs}
use toolcage.Server.Handshake.{handle_line-initialized, handle_lines-idle}
use toolcage.Server.Replies.{IsAnswer, handle_line-IsAnswer}
use toolcage.Server.Listing.{Fetches, tools_list_complete}
use toolcage.Server.Privacy.{audit_after, call_named-private}

-- Three lines that serde reads, and one text for all that it prints.
abbrev ready_line : Text
ready_line = text "ready"

abbrev call_line : Text
call_line = text "call"

abbrev call_message : Text → Value
call_message name = request_message 7 (text "tools/call") (json ((text "name", string name) ∷ []))

abbrev serde : Serde
serde = record {
  to_string = λ v. text "printed";
  from_str = λ t.
      if text_eq t (text "ready")
      then ok (notification_message (text "notifications/initialized"))
      else if text_eq t (text "call")
      then ok (call_message (text "cat"))
      else if text_eq t (text "rm")
      then ok (call_message (text "rm"))
      else err (text "unexpected");
}

abbrev stats : CallStats
stats = record {
  duration_ms = 5;
  fuel_used = some 900;
  stdout_bytes = 10;
  stderr_bytes = 0;
  garbage_lines = 0;
  exit_code = none;
}

abbrev tool : Text → ToolDef
tool n = record { name = n; raw = json ((text "name", string n) ∷ []) }

-- The world is the number of runs; each run ends in a timeout.
abbrev runner : Runner ℕ
runner = record {
  probe = record {
    tools = tool (text "cat") ∷ tool (text "rm") ∷ tool (text "echo") ∷ [];
    protocol = text "2025-06-18";
    truncated = false;
    server_info = null;
    stats = stats;
  };
  call = λ name arguments g w.
      (record { outcome = failed timeout (text "slow"); stats = stats }, w + 1);
}

abbrev debug_str : Text → Text
debug_str t = t

abbrev fresh : Session ℕ
fresh = new_paginated 1 (replicate 32 7) 0

abbrev lines : List Text
lines = text "call" ∷ text "ready" ∷ text "call" ∷ text "rm" ∷ text " " ∷ []

abbrev ready_session : Session ℕ
ready_session = record fresh { initialized = true }

handle_lines-Runs_example :
    IsDefaultsOf file.defaults (text "etc") plain
    × Runs runner file
        (text "etc")
        plain
        0
        (handle_lines serde debug_str runner policy lines fresh).0.world
handle_lines-Runs_example =
    handle_lines-Runs serde debug_str runner file (text "etc") none policy file_IsSorted file_loads
      lines fresh

handle_line-Step_example :
    Step runner policy
      (IsReadyLine serde (text "call"))
      ready_session
      (handle_line serde debug_str runner policy (text "call") ready_session).0
handle_line-Step_example =
    handle_line-Step serde debug_str runner policy (text "call") ready_session

calls-counted_example :
    let s = (handle_lines serde debug_str runner policy lines fresh).0 in
    let total = u64 (calls_noted s.audit) in
    (s.calls ≡ total)
    × ((fs : _) × ((finish 9 s).audit
          ≡ s.audit ++ record { event = text "session_end"; fields = fs } ∷ [])
        × (get (text "calls") fs ≡ some (nat total)))
calls-counted_example = calls-counted serde debug_str runner policy 1 (replicate 32 7) 0 lines 9

handle_line-initialized_example :
    ((handle_line serde debug_str runner policy (text "ready") fresh).0.initialized ≡ true)
    ↔ ((false ≡ true) ⊎ IsReadyLine serde (text "ready"))
handle_line-initialized_example =
    handle_line-initialized serde debug_str runner policy (text "ready") fresh

abbrev is_request : Incoming → Bool
is_request (request id method params) = true
is_request _ = false

call_is_no_notification : IsReadyLine serde (text "call") → ⊥
unfolding parse_line parse_value parse_object request_message json get insert insert_all text
    text_eq toolcage.Prelude.cmp
call_is_no_notification (b, (params, e)) =
    let h : true ≡ false = ap is_request e in ground (arith, h)

handle_lines-idle_example :
    let t = (handle_lines serde debug_str runner policy (text "call" ∷ []) fresh).0 in
    (t.initialized ≡ false) × ((t.calls ≡ 0) × (t.world ≡ 0))
handle_lines-idle_example =
    handle_lines-idle serde debug_str runner policy (text "call" ∷ []) fresh
      (call_is_no_notification, tt) refl

handle_line-IsAnswer_example :
    ((is_blank (text "rm") ≡ true)
      × (handle_line serde debug_str runner policy (text "rm") ready_session
          ≡ (ready_session, none)))
    ⊎ ((is_blank (text "rm") ≡ false)
        × IsAnswer serde
            (parse_line serde (text "rm"))
            (handle_line serde debug_str runner policy (text "rm") ready_session).1)
handle_line-IsAnswer_example =
    handle_line-IsAnswer serde debug_str runner policy (text "rm") ready_session

two_visible : length (visible_tool_defs runner policy) ≡ 2
unfolding visible_tool_defs visible decide get text text_eq
two_visible = refl

tools_list_complete_example :
    Fetches serde debug_str runner policy
      (nat 1)
      ready_session
      none
      (map (λ t. t.raw) (visible_tool_defs runner policy))
tools_list_complete_example =
    tools_list_complete serde debug_str runner policy (nat 1) ready_session refl
      (omega (arith, two_visible))

same_digest : digest_args serde (string (text "secret")) ≡ digest_args serde (string (text "other"))
unfolding digest_args
same_digest = refl

call_named-private_example :
    audit_after serde debug_str runner policy
      (nat 1)
      (text "cat")
      (string (text "secret"))
      ready_session
    ≡ audit_after serde debug_str runner policy
        (nat 2)
        (text "cat")
        (string (text "other"))
        ready_session
call_named-private_example =
    call_named-private serde debug_str runner policy (nat 1) (nat 2) (text "cat")
      (string (text "secret")) (string (text "other")) ready_session ready_session refl same_digest
      (λ g e. (refl, refl))
