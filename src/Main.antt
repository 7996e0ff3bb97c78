-- ===== src/Main.antt =====
-- main.rs: the command line. The operating system and wasmtime are parameters, collected in
-- `System`; a command returns its exit code, what it reports, and the world after it.
pub mod Flags
pub mod Commands
pub mod Check
pub mod Missing
pub mod Mounted
pub mod Effects
pub mod Trail
pub mod Served
pub mod Dispatch
mod Tests
pub mod Printed
use toolcage.Prelude.{ℕ, Bytes, Text, Bool, List, Option, Result}
use toolcage.Json.{Value, Serde}
use toolcage.Policy.{RawPolicy, PolicyError}
use toolcage.Sandbox.{Host}
use toolcage.Sandbox.Calls.{NewError}
use toolcage.Server.{Entry}

pub record System (W : Type 0) : Type 1 where
  pub host : Host W
  pub serde : Serde
  -- `{:?}` on strings, and `serde_json::to_string_pretty` with the text of its error.
  pub debug_str : Text → Text
  pub to_string_pretty : Value → Result Text Text
  -- The file system, as the world has it. `open_append` is `Auditor::to_file`.
  pub read_to_string : Text → W → Option Text
  pub read : Text → W → Option Bytes
  pub is_dir : Text → W → Bool
  pub open_append : Text → W → Result Text W
  pub parent : Text → Option Text
  pub parse_yaml : Text → Option RawPolicy
  -- 32 bytes of /dev/urandom, the process id, the clock and the address of a local variable.
  pub urandom : W → Option Bytes
  pub process_id : ℕ
  pub now_unix_ms : W → ℕ
  pub marker : ℕ

-- What a command tells; an error stands for its text. `usage_error` also prints the usage, which
-- `shown_usage` is by itself.
pub data Report : Type 0 where
  usage_error : Text → Report
  policy_error : PolicyError → Report
  audit_error : Text → Report
  runner_error : NewError → Report
  print_error : Text → Report
  served : (audit : List Entry) (replies : List (Option Text)) → Report
  printed : List Text → Report
  problems_found : ℕ → List Text → Report
  shown_usage : Report
  unknown_command : Text → Report

pub record Ended (W : Type 0) : Type 0 where
  pub code : ℕ
  pub report : Report
  pub world : W

abbrev pub ended : {W : Type 0} → ℕ → Report → W → Ended W
ended code report w = record { code = code; report = report; world = w }
