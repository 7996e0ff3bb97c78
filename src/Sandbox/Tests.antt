-- ===== src/Sandbox/Tests.antt =====
-- A host with a guest that answers the probe and every call, and the theorems about sandbox.rs
-- there.
use toolcage.Prelude.{
  ℕ, ◌+◌, ◌/◌, ◌≡◌, refl, ap, Bytes, Text, text, text_eq, cmp, split_on, true, false, List, [], ◌∷◌,
  Option, none, some, length, ok, err, take, length-take, if◌then◌else◌, replicate, pos, arith,
}
use toolcage.TreeMap.{get, insert, insert_all}
use toolcage.Json.{Value, Number, null, string, array, to_items, json, get_field, nat, Serde}
use toolcage.Rpc.{result_message, request_message, notification_message}
use toolcage.Rpc.Utf8.{is_utf8}
use toolcage.Rpc.Transcript.{guest_transcript_call}
use toolcage.Rpc.Extract.{extract_response}
use toolcage.Runner.{ToolDef, completed, ProbeResult}
use toolcage.Policy.Ranges.{LimitsInRange}
use toolcage.Policy.Decisions.{IsDefaultsOf}
use toolcage.Policy.Tests.{file, policy, plain, reading, file_loads, file_IsSorted}
use toolcage.Server.{Session, new_paginated}
use toolcage.Server.Handlers.{handle_lines, run_tool}
use toolcage.Sandbox.Replied.{IsReply, run_tool-IsReply}
use toolcage.Sandbox.{
  ExitKind, exit, trapped, RunOutput, StoreSetup, Host, HostError, Trap, out_of_fuel,
  classify_error,
}
use toolcage.Sandbox.Guest.{store_setup, wasi_start, run_guest, execute}
use toolcage.Sandbox.Calls.{
  output_max_bytes, call_result, parse_probe, WasmRunner, wasm_runner, new_runner, call,
}
use toolcage.Sandbox.Budgets.{IsBudgeted, store_setup-IsBudgeted}
use toolcage.Sandbox.Outcomes.{IsOutcome, answer_of, call-IsOutcome}
use toolcage.Sandbox.Touched.{Delivers}
use toolcage.Sandbox.Bounded.{Caps, IsBounded, run_guest-IsBounded}
use toolcage.Sandbox.Probed.{IsProbed, parse_probe-IsProbed}
use toolcage.Sandbox.Contained.{GuestRuns, handle_lines-GuestRuns}

-- What the guest writes, and what serde reads of it.
abbrev written : Bytes
written = text "1\nnoise\n2\n"

abbrev echo : Value
echo = json ((text "name", string (text "echo")) ∷ [])

abbrev cat : Value
cat = json ((text "name", string (text "cat")) ∷ [])

abbrev init_answer : Value
init_answer =
    result_message (nat 1) (json ((text "protocolVersion", string (text "2024-11-05")) ∷ []))

abbrev list_answer : Value
list_answer =
    result_message (nat 2) (json ((text "tools", array (to_items (cat ∷ null ∷ echo ∷ []))) ∷ []))

abbrev pub serde : Serde
serde = record {
  to_string = λ v. text "printed";
  from_str = λ t.
      if text_eq t (text "1")
      then ok init_answer
      else if text_eq t (text "2")
      then ok list_answer
      else if text_eq t (text "ready")
      then ok (notification_message (text "notifications/initialized"))
      else if text_eq t (text "call")
      then ok
          (request_message 7 (text "tools/call") (json ((text "name", string (text "cat")) ∷ [])))
      else err (text "unexpected");
}

-- The world is the clock; a store is its setup and what the guest has written.
abbrev pub host : Host ℕ
host = record {
  Engine = Unit {0};
  Module = Unit {0};
  Store = StoreSetup × Bytes;
  Instance = Unit {0};
  Func = Unit {0};
  new_engine = λ fuel epochs. ok tt;
  from_file = λ e path w. ok tt;
  preopened_dir = λ h p d f w. ok tt;
  set_fuel = λ e fuel. ok tt;
  add_to_linker = λ e. ok tt;
  instantiate = λ e m s w. (ok tt, ((s, []), w));
  get_typed_func = λ i s name. ok tt;
  call = λ f s w. (ok tt, ((s.0, take s.0.wasi.stdout_cap written), w + 3000000));
  get_fuel = λ s. some (s.0.fuel / 2);
  stdout_contents = λ s. take s.0.wasi.stdout_cap s.1;
  stderr_contents = λ s. [];
  now = λ w. w;
  recv_timeout = λ limit job w. (some (job w).0, (job w).1);
  eprintln = λ t w. w;
  from_utf8_lossy = λ b. b;
}

received : Option RunOutput → RunOutput → RunOutput
received none d = d
received (some r) d = r

pub host-Delivers : Delivers host
unfolding received
host-Delivers limit job w a v e = ap (λ r. (received r.0 a, r.1)) e

host-Caps : Caps host
host-Caps = record {
  stdout_cap = λ s. s.0.wasi.stdout_cap;
  stderr_cap = λ s. s.0.wasi.stderr_cap;
  stdout_fits = λ s. omega (arith, length-take s.0.wasi.stdout_cap s.1);
  stderr_fits = λ s. omega arith;
  instantiate_caps = λ e m s w. (refl, refl);
  call_caps = λ f s w. (refl, refl);
}

abbrev tools : List ToolDef
tools = record { name = text "cat"; raw = cat } ∷ record { name = text "echo"; raw = echo } ∷ []

abbrev output : RunOutput
output = record {
  stdout = written;
  stderr_bytes = 0;
  exit_kind = exit (pos 3);
  fuel_used = some 5;
  duration_ms = 3;
}

abbrev pub probe : ProbeResult
probe = record {
  tools = tools;
  protocol = text "2024-11-05";
  truncated = false;
  server_info = null;
  stats = record {
    duration_ms = 3;
    fuel_used = some 1000000000;
    stdout_bytes = 10;
    stderr_bytes = 0;
    garbage_lines = 1;
    exit_code = some (Number.pos_int 0);
  };
}

abbrev pub wasm : WasmRunner host
wasm = record { engine = tt; module_ = tt; probe = probe; debug_guest_stderr = false }

abbrev lines : List Text
lines = text "ready" ∷ text "call" ∷ []

abbrev fresh : Session ℕ
fresh = new_paginated 0 (replicate 32 7) 9

reading_in_range : LimitsInRange reading.limits
reading_in_range = record {
  timeout_in = (omega arith, omega arith);
  fuel_in = omega arith;
  memory_in = (omega arith, omega arith);
  output_in = (omega arith, omega arith);
}

sandbox_run : Unit {0}
unfolding text text_eq cmp split_on get insert insert_all json get_field notification_message
    request_message result_message is_utf8 extract_response guest_transcript_call new_runner call
    call_result parse_probe run_guest execute toolcage.Sandbox.Guest.preopen_all
    toolcage.Sandbox.Guest.execute_in toolcage.Sandbox.Guest.collect
    toolcage.Sandbox.Guest.run_instance toolcage.Sandbox.Guest.start_guest
    toolcage.Sandbox.Guest.after_start toolcage.Sandbox.Guest.joined
    toolcage.Sandbox.Guest.show_stderr toolcage.Sandbox.Guest.stdout_cap_of store_setup wasi_start
    toolcage.Sandbox.Calls.probed toolcage.Sandbox.Calls.parse_output
    toolcage.Sandbox.Calls.probe_of toolcage.Sandbox.Calls.protocol_of
    toolcage.Sandbox.Calls.stats_of toolcage.Sandbox.Calls.tool_defs
    toolcage.Sandbox.Calls.outcome_of toolcage.Sandbox.exit_code_of toolcage.Rpc.Extract.trim_ascii
    toolcage.Rpc.Extract.parse_json toolcage.Rpc.Extract.count toolcage.Rpc.Extract.scan_line
    toolcage.Rpc.Extract.scan_lines toolcage.Rpc.Extract.answers toolcage.Rpc.Utf8.scan
    toolcage.Rpc.Utf8.advance toolcage.Rpc.protocol_fallback
sandbox_run = tt

new_runner_run : new_runner host serde (text "server.wasm") plain false 9 ≡ (ok wasm, 3000009)
unfolding sandbox_run
new_runner_run = refl

call_run :
    call host serde wasm (text "cat") null reading 9
    ≡ (record { outcome = completed list_answer; stats = probe.stats }, 3000009)
unfolding sandbox_run
call_run = refl

store_setup-IsBudgeted_example :
    IsBudgeted reading (store_setup reading (wasi_start reading written))
store_setup-IsBudgeted_example = store_setup-IsBudgeted reading written reading_in_range

call-IsOutcome_example :
    let stdin_bytes = guest_transcript_call serde wasm.probe.protocol (text "cat") null in
    let run = (run_guest host tt tt reading stdin_bytes false 9).0 in
    IsOutcome
      (output_max_bytes reading)
      (length run.stdout)
      (answer_of serde run)
      run.exit_kind
      (call host serde wasm (text "cat") null reading 9).0.outcome
call-IsOutcome_example = call-IsOutcome host serde wasm (text "cat") null reading 9 reading_in_range

parse_probe-IsProbed_example : IsProbed serde output (parse_probe serde output)
unfolding text
parse_probe-IsProbed_example = parse_probe-IsProbed serde output (omega arith)

run_guest-IsBounded_example :
    IsBounded reading (run_guest host tt tt reading (text "call") true 9).0
run_guest-IsBounded_example =
    run_guest-IsBounded host tt tt reading (text "call") true 9 host-Caps host-Delivers
      reading_in_range

handle_lines-GuestRuns_example :
    IsDefaultsOf file.defaults (text "etc") plain
    × GuestRuns host serde wasm file
        (text "etc")
        plain
        9
        (handle_lines serde (λ t. t) (wasm_runner host serde wasm) policy lines fresh).0.world
handle_lines-GuestRuns_example =
    handle_lines-GuestRuns host serde (λ t. t) wasm file (text "etc") none policy host-Delivers
      file_IsSorted file_loads lines fresh

run_tool-IsReply_example :
    let stdin_bytes = guest_transcript_call serde wasm.probe.protocol (text "cat") null in
    let run = (run_guest host tt tt reading stdin_bytes false 9).0 in
    IsReply serde
      (nat 7)
      (output_max_bytes reading)
      (length run.stdout)
      (answer_of serde run)
      run.exit_kind
      (run_tool serde
        (λ t. t)
        (wasm_runner host serde wasm)
        policy
        (nat 7)
        (text "cat")
        null
        reading
        fresh).1
run_tool-IsReply_example =
    run_tool-IsReply host serde (λ t. t) wasm policy (nat 7) (text "cat") null reading fresh
      reading_in_range
