-- ===== src/Sandbox/Guest.antt =====
-- One execution of a guest in sandbox.rs: `run_guest`, `execute` and `host_error`.
use toolcage.Prelude.{
  ℕ, ◌+◌, ◌-◌, ◌*◌, ◌/◌, Bytes, Text, text, Bool, not, ◌&&◌, List, [], ◌∷◌, ◌++◌, Option, none,
  some, Result, ok, err, length, is_empty, if◌then◌else◌, u64, saturating_mul, saturating_add,
}
use toolcage.Policy.{Grant, Mount, MountMode, read_only, read_write}
use toolcage.Runner.{FailClass}
use toolcage.Sandbox.{
  epoch_tick_ms, join_grace_ms, stderr_cap_bytes, output_slack_bytes, ExitKind, trapped,
  host_failed, RunOutput, Perms, Preopen, WasiCtx, StoreSetup, Host, HostError, shown_nat,
  classify_error,
}

-- `u64::saturating_sub` is the subtraction of natural numbers.
abbrev pub fuel_spent : ℕ → Option ℕ → Option ℕ
fuel_spent fuel none = none
fuel_spent fuel (some left) = some (fuel - left)

unfoldable pub stdout_cap_of : Grant → ℕ
stdout_cap_of g = saturating_add (saturating_mul g.limits.output_max_kb 1024) output_slack_bytes

-- The match on the mode of a mount.
unfoldable pub perms_of : MountMode → Perms
perms_of read_only = Perms.read
perms_of read_write = Perms.all

unfoldable pub preopen_of : Mount → Preopen
preopen_of m = record {
  host_path = m.host_path;
  guest_path = m.guest_path;
  dir_perms = perms_of m.mode;
  file_perms = perms_of m.mode;
}

abbrev pub failed_output : ℕ → Text → RunOutput
failed_output duration_ms detail = record {
  stdout = [];
  stderr_bytes = 0;
  exit_kind = host_failed detail;
  fuel_used = none;
  duration_ms = duration_ms;
}

-- `host_error`, whose pipes hold what the store has written.
unfoldable pub host_error : ℕ → Bytes → Bytes → Text → RunOutput
host_error duration_ms stdout stderr detail = record {
  stdout = stdout;
  stderr_bytes = length stderr;
  exit_kind = host_failed detail;
  fuel_used = none;
  duration_ms = duration_ms;
}

unfoldable pub preopen_failed : Mount → HostError → Text
preopen_failed m e =
    text "preopen "
    ++ (m.host_path ++ (text " -> " ++ (m.guest_path ++ (text " failed: " ++ e.shown))))

unfoldable pub store_setup : Grant → WasiCtx → StoreSetup
store_setup g wasi = record {
  wasi = wasi;
  memory_size = saturating_mul g.limits.memory_max_mb (1024 * 1024);
  fuel = g.limits.fuel;
  epoch_deadline = g.limits.timeout_ms / epoch_tick_ms + 2;
}

-- The builder after stdin, the pipes and the variables.
unfoldable pub wasi_start : Grant → Bytes → WasiCtx
wasi_start g stdin_bytes = record {
  stdin = stdin_bytes;
  stdout_cap = stdout_cap_of g;
  stderr_cap = stderr_cap_bytes;
  env = g.env;
  preopens = [];
}

-- The limit of `recv_timeout`.
unfoldable pub join_budget : Grant → ℕ
join_budget g = u64 (g.limits.timeout_ms + 2 * epoch_tick_ms + join_grace_ms)

unfoldable pub abandoned : ℕ → RunOutput
abandoned duration_ms = record {
  stdout = [];
  stderr_bytes = 0;
  exit_kind =
      trapped FailClass.timeout
        (text "wall-clock budget exceeded inside a host call; worker thread abandoned");
  fuel_used = none;
  duration_ms = duration_ms;
}

module _ {W : Type 0} (host : Host W) where
  -- `started.elapsed().as_millis() as u64`
  abbrev pub elapsed_ms : ℕ → W → ℕ
  elapsed_ms started w = u64 ((host.now w - started) / 1000000)

  -- The loop over the mounts: the builder after it, or the text of the error.
  unfoldable pub preopen_all : W → List Mount → WasiCtx → Result Text WasiCtx
  preopen_all w [] ctx = ok ctx
  preopen_all w (m ∷ ms) ctx =
      let p = preopen_of m in
      let rest = preopen_all w ms (record ctx { preopens = ctx.preopens ++ p ∷ [] }) in
      elim (host.preopened_dir p.host_path p.guest_path p.dir_perms p.file_perms w) [
        | err e ↦ err (preopen_failed m e)
        | ok u ↦ rest
      ]

  -- The match on `start.call`.
  unfoldable pub after_start : Result HostError (Unit {0}) → ExitKind
  after_start (ok u) = ExitKind.clean
  after_start (err e) = classify_error e

  -- The match on `get_typed_func`.
  unfoldable pub start_guest :
      Result HostError host.Func → host.Store → W → ExitKind × (host.Store × W)
  start_guest (err e) store w =
      (host_failed (text "module has no _start export: " ++ e.shown), (store, w))
  start_guest (ok start) store w =
      let (done, (store', v)) = host.call start store w in (after_start done, (store', v))

  -- The match on `instantiate`.
  unfoldable pub run_instance :
      Result HostError host.Instance × (host.Store × W) → ExitKind × (host.Store × W)
  run_instance (err e, (store, w)) = (classify_error e, (store, w))
  run_instance (ok instance', (store, w)) =
      start_guest (host.get_typed_func instance' store (text "_start")) store w

  -- The output of the guest's standard error, when it is asked for.
  unfoldable pub show_stderr : Bool → Bytes → W → W
  show_stderr debug_guest_stderr stderr w =
      if debug_guest_stderr && not (is_empty stderr)
      then host.eprintln (host.from_utf8_lossy stderr) (
          host.eprintln
            (text "[toolcage] guest stderr (" ++ (shown_nat (length stderr) ++ text " bytes):")) w)
      else w

  -- `execute` from the fuel that is left on.
  unfoldable pub collect : Grant → Bool → ℕ → ExitKind × (host.Store × W) → RunOutput × W
  collect g debug_guest_stderr started (exit_kind, (store, w)) =
      let v = show_stderr debug_guest_stderr (host.stderr_contents store) w in
      (
        record {
          stdout = host.stdout_contents store;
          stderr_bytes = length (host.stderr_contents store);
          exit_kind = exit_kind;
          fuel_used = fuel_spent g.limits.fuel (host.get_fuel store);
          duration_ms = elapsed_ms started v;
        },
        v,
      )

  -- `execute` from `build_p1` on. The pipes are empty until the guest runs.
  unfoldable pub execute_in :
      host.Engine → host.Module → Grant → Bool → ℕ → W → WasiCtx → RunOutput × W
  execute_in engine module' g debug_guest_stderr started w ctx =
      elim (host.set_fuel engine g.limits.fuel) [
        | err e ↦ (host_error (elapsed_ms started w) [] [] (text "set_fuel: " ++ e.shown), w)
        | ok u ↦ elim (host.add_to_linker engine) [
          | err e ↦ (host_error (elapsed_ms started w) [] [] (text "wasi link: " ++ e.shown), w)
          | ok u' ↦
              collect g debug_guest_stderr started
                (run_instance (host.instantiate engine module' (store_setup g ctx) w))
        ]
      ]

  unfoldable pub execute : host.Engine → host.Module → Grant → Bytes → Bool → W → RunOutput × W
  execute engine module' g stdin_bytes debug_guest_stderr w =
      let started = host.now w in
      elim (preopen_all w g.mounts (wasi_start g stdin_bytes)) [
        | err detail ↦ (failed_output (elapsed_ms started w) detail, w)
        | ok ctx ↦ execute_in engine module' g debug_guest_stderr started w ctx
      ]

  -- The match on `recv_timeout`.
  unfoldable pub joined : ℕ → Option RunOutput × W → RunOutput × W
  joined started (some out, w) = (out, w)
  joined started (none, w) = (abandoned (elapsed_ms started w), w)

  unfoldable pub run_guest : host.Engine → host.Module → Grant → Bytes → Bool → W → RunOutput × W
  run_guest engine module' g stdin_bytes debug_guest_stderr w = joined (host.now w) (
      host.recv_timeout (join_budget g) (execute engine module' g stdin_bytes debug_guest_stderr) w)
