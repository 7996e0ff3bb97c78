-- ===== src/Sandbox.antt =====
-- sandbox.rs: what an execution of a guest is given, and what it leaves. wasmtime, the threads, the
-- clock and the standard error are parameters, collected in `Host`; `W` is the state of all that is
-- outside the process.
pub mod Guest
pub mod Calls
pub mod Preopens
pub mod Touched
pub mod Bounded
pub mod Contained
pub mod Tests
mod TickerTests
pub mod Probed
pub mod Outcomes
pub mod Replied
pub mod Budgets
pub mod Ticker
use toolcage.Prelude.{
  ℕ, ◌*◌, Bytes, Text, text, Bool, List, Option, none, some, Result, ℤ, pos, negsuc, ◌++◌, ◌+◌, ◌∷◌,
  ◌==◌, suc,
}
use toolcage.Json.{Number, pos_int, neg_int}
use toolcage.Runner.{FailClass, cpu_budget, guest_trap}
use toolcage.Audit.Clock.{digits_of}

abbrev pub epoch_tick_ms : ℕ
epoch_tick_ms = 100

abbrev pub join_grace_ms : ℕ
join_grace_ms = 2000

abbrev pub stderr_cap_bytes : ℕ
stderr_cap_bytes = 256 * 1024

abbrev pub output_slack_bytes : ℕ
output_slack_bytes = 4096

pub data ExitKind : Type 0 where
  clean : ExitKind
  exit : ℤ → ExitKind
  trapped : FailClass → Text → ExitKind
  host_failed : Text → ExitKind

pub record RunOutput : Type 0 where
  pub stdout : Bytes
  pub stderr_bytes : ℕ
  pub exit_kind : ExitKind
  pub fuel_used : Option ℕ
  pub duration_ms : ℕ

-- `DirPerms` and `FilePerms`, as far as they are used.
pub data Perms : Type 0 where
  read all : Perms

-- One `preopened_dir`.
pub record Preopen : Type 0 where
  pub host_path : Text
  pub guest_path : Text
  pub dir_perms : Perms
  pub file_perms : Perms

-- `WasiCtxBuilder`, with the capacities of the two output pipes.
pub record WasiCtx : Type 0 where
  pub stdin : Bytes
  pub stdout_cap : ℕ
  pub stderr_cap : ℕ
  pub env : List (Text × Text)
  pub preopens : List Preopen

-- A store before the guest runs in it: `HostState`, the fuel and the epoch deadline.
pub record StoreSetup : Type 0 where
  pub wasi : WasiCtx
  pub memory_size : ℕ
  pub fuel : ℕ
  pub epoch_deadline : ℕ

-- The two traps that are told apart, and the others by their `{:?}`.
pub data Trap : Type 0 where
  out_of_fuel interrupt : Trap
  other : Text → Trap

-- An error of wasmtime: its `{:#}`, and what the two `downcast_ref` find in it.
pub record HostError : Type 0 where
  pub shown : Text
  pub i32_exit : Option ℤ
  pub trap : Option Trap

pub record Host (W : Type 0) : Type 1 where
  pub Engine : Type 0
  pub Module : Type 0
  pub Store : Type 0
  pub Instance : Type 0
  pub Func : Type 0
  pub new_engine : (consume_fuel epoch_interruption : Bool) → Result HostError Engine
  pub from_file : Engine → Text → W → Result HostError Module
  -- `preopened_dir` opens the host directory.
  pub preopened_dir : Text → Text → Perms → Perms → W → Result HostError (Unit {0})
  pub set_fuel : Engine → ℕ → Result HostError (Unit {0})
  pub add_to_linker : Engine → Result HostError (Unit {0})
  -- `Linker::instantiate` runs a start section; `Func` is a typed function.
  pub instantiate : Engine → Module → StoreSetup → W → Result HostError Instance × (Store × W)
  pub get_typed_func : Instance → Store → Text → Result HostError Func
  pub call : Func → Store → W → Result HostError (Unit {0}) × (Store × W)
  pub get_fuel : Store → Option ℕ
  pub stdout_contents : Store → Bytes
  pub stderr_contents : Store → Bytes
  -- `Instant::now`, in nanoseconds.
  pub now : W → ℕ
  -- A thread that sends what the job returns, and `recv_timeout` on it, with the limit in
  -- milliseconds.
  pub recv_timeout : ℕ → (W → RunOutput × W) → W → Option RunOutput × W
  pub eprintln : Text → W → W
  pub from_utf8_lossy : Bytes → Text

-- `{}` on an i32 and on a u64.
unfoldable pub shown_nat : ℕ → Text
shown_nat n = digits_of 20 n

unfoldable pub shown_int : ℤ → Text
shown_int (pos n) = shown_nat n
shown_int (negsuc n) = b'-' ∷ shown_nat (suc n)

-- An i32 in JSON.
abbrev pub to_number : ℤ → Number
to_number (pos n) = pos_int n
to_number (negsuc n) = neg_int n

-- The match on the exit for `exit_code`.
unfoldable pub exit_code_of : ExitKind → Option Number
exit_code_of ExitKind.clean = some (pos_int 0)
exit_code_of (exit c) = some (to_number c)
exit_code_of (trapped class detail) = none
exit_code_of (host_failed detail) = none

unfoldable pub classify_trap : Trap → ExitKind
classify_trap out_of_fuel = trapped cpu_budget (text "fuel exhausted (wasmtime Trap::OutOfFuel)")
classify_trap interrupt =
    trapped FailClass.timeout (text "epoch deadline reached (wasmtime Trap::Interrupt)")
classify_trap (other name) = trapped guest_trap (text "wasm trap: " ++ name)

unfoldable pub classify_error : HostError → ExitKind
unfolding classify_trap
classify_error e = elim e.i32_exit [
  | some code ↦ exit code
  | none ↦ elim e.trap [
    | some trap ↦ classify_trap trap
    | none ↦ trapped guest_trap (text "guest error: " ++ e.shown)
  ]
]
