-- ===== src/Runner.antt =====
-- runner.rs: what a runner is, and how a call can fail.
use toolcage.Prelude.{ℕ, Text, text, Bool, List, Option}
use toolcage.Json.{Value, Number}
use toolcage.Rpc.{code_budget_exceeded, code_guest_failed}
use toolcage.Policy.{Grant}

pub record ToolDef : Type 0 where
  pub name : Text
  pub raw : Value

pub data FailClass : Type 0 where
  timeout cpu_budget output_overflow guest_trap guest_exit no_response internal : FailClass

-- `FailClass::as_str`
unfoldable pub fail_as_str : FailClass → Text
fail_as_str timeout = text "timeout"
fail_as_str cpu_budget = text "cpu_budget"
fail_as_str output_overflow = text "output_overflow"
fail_as_str guest_trap = text "guest_trap"
fail_as_str guest_exit = text "guest_exit"
fail_as_str no_response = text "no_response"
fail_as_str internal = text "internal"

-- `FailClass::code`
unfoldable pub fail_code : FailClass → Value
fail_code timeout = code_budget_exceeded
fail_code cpu_budget = code_budget_exceeded
fail_code output_overflow = code_budget_exceeded
fail_code _ = code_guest_failed

-- `FailClass::message`
unfoldable pub fail_message : FailClass → Text
fail_message timeout = text "tool call exceeded its wall-clock budget"
fail_message cpu_budget = text "tool call exhausted its CPU (fuel) budget"
fail_message output_overflow = text "tool call exceeded its output budget"
fail_message guest_trap = text "guest trapped during the tool call"
fail_message guest_exit = text "guest exited without answering the tool call"
fail_message no_response = text "guest completed without answering the tool call"
fail_message internal = text "toolcage host error during the tool call"

-- An exit code is an i32, as the number that serde makes of it.
pub record CallStats : Type 0 where
  pub duration_ms : ℕ
  pub fuel_used : Option ℕ
  pub stdout_bytes : ℕ
  pub stderr_bytes : ℕ
  pub garbage_lines : ℕ
  pub exit_code : Option Number

pub data CallOutcome : Type 0 where
  completed : (response : Value) → CallOutcome
  failed : (class : FailClass) (detail : Text) → CallOutcome

pub record CallResult : Type 0 where
  pub outcome : CallOutcome
  pub stats : CallStats

pub record ProbeResult : Type 0 where
  pub tools : List ToolDef
  pub protocol : Text
  pub truncated : Bool
  pub server_info : Value
  pub stats : CallStats

-- The trait. A call may read and change what lies outside the session, the guest's file system
-- above all; `W` stands for the state of all that.
pub record Runner (W : Type 0) : Type 0 where
  pub probe : ProbeResult
  pub call : Text → Value → Grant → W → CallResult × W
