-- ===== src/Sandbox/Calls.antt =====
-- `WasmRunner` of sandbox.rs: `new` with `parse_probe`, and `call`.
use toolcage.Prelude.{
  ℕ, Text, text, Bool, true, List, [], ◌∷◌, ◌++◌, Option, none, some, Result, ok, err, length, ltb,
  if◌then◌else◌, ◌==◌, pos, negsuc, saturating_mul,
}
use toolcage.Json.{Value, get_field, as_str, as_array, ◌>>=◌, or_null, Serde}
use toolcage.Rpc.{protocol_fallback, guest_init_id, guest_call_id}
use toolcage.Rpc.Transcript.{guest_transcript_probe, guest_transcript_call}
use toolcage.Rpc.Extract.{extract_response}
use toolcage.Policy.{Grant}
use toolcage.Runner.{
  ToolDef, FailClass, output_overflow, guest_exit, no_response, CallStats, CallOutcome, completed,
  failed, CallResult, ProbeResult, Runner,
}
use toolcage.Sandbox.{
  ExitKind, exit, trapped, host_failed, RunOutput, Host, HostError, shown_nat, shown_int,
  exit_code_of,
}
use toolcage.Sandbox.Guest.{run_guest}

unfoldable pub stats_of : RunOutput → CallStats
stats_of run = record {
  duration_ms = run.duration_ms;
  fuel_used = run.fuel_used;
  stdout_bytes = length run.stdout;
  stderr_bytes = run.stderr_bytes;
  garbage_lines = 0;
  exit_code = exit_code_of run.exit_kind;
}

abbrev pub output_max_bytes : Grant → ℕ
output_max_bytes g = saturating_mul g.limits.output_max_kb 1024

-- The match on the exit of a guest that did not answer.
unfoldable pub fail_of : ExitKind → FailClass × Text
fail_of (trapped class detail) = (class, detail)
fail_of (host_failed detail) = (FailClass.internal, detail)
fail_of (exit (pos code)) =
    if code == 0
    then (no_response, text "guest completed without a response for the call id")
    else (
      guest_exit,
      text "guest exited with code " ++ (shown_nat code ++ text " before answering"),
    )
fail_of (exit (negsuc code)) = (
  guest_exit,
  text "guest exited with code " ++ (shown_int (negsuc code) ++ text " before answering"),
)
fail_of ExitKind.clean = (no_response, text "guest completed without a response for the call id")

abbrev failed_as : FailClass × Text → CallOutcome
failed_as (class, detail) = failed class detail

-- The match on the response.
unfoldable pub outcome_of : Option Value → ExitKind → CallOutcome
outcome_of (some r) exit_kind = completed r
outcome_of none exit_kind = failed_as (fail_of exit_kind)

unfoldable pub overflow_detail : ℕ → ℕ → Text
overflow_detail size budget =
    text "guest stdout reached "
    ++ (shown_nat size ++ (text " bytes (budget " ++ (shown_nat budget ++ text ")")))

-- The tools with a name, in order.
unfoldable pub tool_defs : List Value → List ToolDef
tool_defs [] = []
tool_defs (t ∷ ts) =
    let rest = tool_defs ts in
    elim (get_field (text "name") t >>= as_str) [
      | some name ↦ record { name = name; raw = t } ∷ rest
      | none ↦ rest
    ]

-- The three errors of `parse_probe`, in place of their texts.
pub data ProbeError : Type 0 where
  before_execution : (detail : Text) → ProbeError
  no_answer : (exit_kind : ExitKind) (stdout_bytes : ℕ) → ProbeError
  no_tools : ProbeError

unfoldable pub protocol_of : Value → Text
protocol_of init_result = elim (get_field (text "protocolVersion") init_result >>= as_str) [
  | some p ↦ p
  | none ↦ protocol_fallback
]

abbrev pub is_present : Option Value → Bool
is_present none = Bool.false
is_present (some v) = true

-- `parse_probe` from `list_result` on.
unfoldable pub probe_of : CallStats → ℕ → Value → Value → Result ProbeError ProbeResult
probe_of stats garbage init_result list_result =
    elim (get_field (text "tools") list_result >>= as_array) [
      | none ↦ err no_tools
      | some arr ↦ ok (record {
        tools = tool_defs arr;
        protocol = protocol_of init_result;
        truncated = is_present (get_field (text "nextCursor") list_result);
        server_info = or_null (get_field (text "serverInfo") init_result);
        stats = record stats { garbage_lines = garbage };
      })
    ]

-- `if let ExitKind::HostError(detail) = &run.exit { return Err(…) }`
unfoldable pub unless_failed :
    ExitKind → Result ProbeError ProbeResult → Result ProbeError ProbeResult
unless_failed (host_failed detail) rest = err (before_execution detail)
unless_failed ExitKind.clean rest = rest
unless_failed (exit code) rest = rest
unless_failed (trapped class detail) rest = rest

module _ (serde : Serde) where
  -- `parse_probe` behind the test for a host error.
  unfoldable pub parse_output : RunOutput → Result ProbeError ProbeResult
  parse_output run =
      let init = extract_response serde run.stdout guest_init_id in
      let list = extract_response serde run.stdout guest_call_id in
      let init_result = or_null (init.found >>= get_field (text "result")) in
      elim list.found [
        | none ↦ err (no_answer run.exit_kind (length run.stdout))
        | some r ↦
            probe_of (stats_of run) list.garbage init_result (or_null (get_field (text "result") r))
      ]

  unfoldable pub parse_probe : RunOutput → Result ProbeError ProbeResult
  unfolding unless_failed
  parse_probe run = unless_failed run.exit_kind (parse_output run)

  -- `call` from the end of the run on.
  unfoldable pub call_result : Grant → RunOutput → CallResult
  call_result g run =
      let stats = stats_of run in
      if ltb (output_max_bytes g) stats.stdout_bytes
      then record {
        outcome = failed output_overflow (overflow_detail stats.stdout_bytes (output_max_bytes g));
        stats = stats;
      }
      else (let scan = extract_response serde run.stdout guest_call_id in
          record {
            outcome = outcome_of scan.found run.exit_kind;
            stats = record stats { garbage_lines = scan.garbage };
          })

pub data NewError : Type 0 where
  engine_failed : HostError → NewError
  module_failed : Text → HostError → NewError
  probe_failed : ProbeError → NewError

-- `WasmRunner`, but for the flag that stops the ticker thread.
pub record WasmRunner {W : Type 0} (host : Host W) : Type 0 where
  pub engine : host.Engine
  pub module_ : host.Module
  pub probe : ProbeResult
  pub debug_guest_stderr : Bool

module _ {W : Type 0} (host : Host W) (serde : Serde) where
  -- `new` from the probe on.
  unfoldable pub probed :
      host.Engine → host.Module → Bool → RunOutput × W → Result NewError (WasmRunner host) × W
  probed engine module' debug_guest_stderr (run, w) = elim (parse_probe serde run) [
    | err e ↦ (err (probe_failed e), w)
    | ok probe ↦ (
      ok (record {
        engine = engine;
        module_ = module';
        probe = probe;
        debug_guest_stderr = debug_guest_stderr;
      }),
      w,
    )
  ]

  unfoldable pub new_runner : Text → Grant → Bool → W → Result NewError (WasmRunner host) × W
  new_runner module_path probe_grant debug_guest_stderr w = elim (host.new_engine true true) [
    | err e ↦ (err (engine_failed e), w)
    | ok engine ↦ elim (host.from_file engine module_path w) [
      | err e ↦ (err (module_failed module_path e), w)
      | ok module' ↦ probed engine module' debug_guest_stderr (
          run_guest host engine module' probe_grant (guest_transcript_probe serde protocol_fallback)
            debug_guest_stderr w)
    ]
  ]

  unfoldable pub call : WasmRunner host → Text → Value → Grant → W → CallResult × W
  call r tool arguments g w =
      let (run, v) =
        run_guest host r.engine r.module_ g
          (guest_transcript_call serde r.probe.protocol tool arguments) r.debug_guest_stderr w in
      (call_result serde g run, v)

  -- `impl Runner for WasmRunner`
  unfoldable pub wasm_runner : WasmRunner host → Runner W
  wasm_runner r = record { probe = r.probe; call = call r }
