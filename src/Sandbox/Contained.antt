-- ===== src/Sandbox/Contained.antt =====
-- A session of server.rs with the runner of sandbox.rs: what it can touch outside the process.
use toolcage.Prelude.{◌≡◌, Text, Option, true, List, ok}
use toolcage.Json.{Value, Serde}
use toolcage.Rpc.Transcript.{guest_transcript_call}
use toolcage.Policy.{RawPolicy, Grant, Decision, Policy}
use toolcage.Policy.Build.{from_raw}
use toolcage.Policy.Decisions.{RawIsSorted, IsDefaultsOf, IsDecision}
use toolcage.Policy.Grants.{GrantIsValid}
use toolcage.Server.{Session}
use toolcage.Server.Handlers.{is_known, handle_lines}
use toolcage.Server.Safety.{Runs, stay, run, handle_lines-Runs}
use toolcage.Sandbox.{Host}
use toolcage.Sandbox.Calls.{WasmRunner, call, wasm_runner}
use toolcage.Sandbox.Touched.{Touched, Delivers, run_guest-Touched}

-- One world after the other: each change is one execution of the guest on the input of a call, for
-- a tool that the probe listed and the file allows, within the grant that the file calls for.
pub data GuestRuns {W : Type 0} (host : Host W) (serde : Serde) (r : WasmRunner host)
    (raw : RawPolicy) (base_dir : Text) (defaults : Grant) : W → W → Type 0 where
  none_left : (w : W) → GuestRuns host serde r raw base_dir defaults w w
  guest_run :
      (w u v : W) (name : Text) (arguments : Value) (g : Grant)
      → is_known (wasm_runner host serde r) name ≡ true
      → IsDecision raw base_dir defaults name (Decision.allow g)
      → GrantIsValid g
      → Touched host r.engine r.module_ g
          (guest_transcript_call serde r.probe.protocol name arguments)
          r.debug_guest_stderr
          w
          u
      → GuestRuns host serde r raw base_dir defaults u v
      → GuestRuns host serde r raw base_dir defaults w v

module _ {W : Type 0} (host : Host W) (serde : Serde) (r : WasmRunner host) where
  pub call-Touched :
      (name : Text) (arguments : Value) (g : Grant) (w : W)
      → Delivers host
      → Touched host r.engine r.module_ g
          (guest_transcript_call serde r.probe.protocol name arguments)
          r.debug_guest_stderr
          w
          ((wasm_runner host serde r).call name arguments g w).1
  unfolding wasm_runner call
  call-Touched name arguments g w delivers =
      run_guest-Touched host r.engine r.module_ g
        (guest_transcript_call serde r.probe.protocol name arguments) r.debug_guest_stderr w
        delivers

  module _ (raw : RawPolicy) (base_dir : Text) (defaults : Grant) (delivers : Delivers host) where
    Runs-GuestRuns :
        (w v : W)
        → Runs (wasm_runner host serde r) raw base_dir defaults w v
        → GuestRuns host serde r raw base_dir defaults w v
    Runs-GuestRuns w v (stay _) = none_left w
    Runs-GuestRuns w v (run _ _ name arguments g known decision valid rest) =
        guest_run w _ v name arguments g known decision valid
          (call-Touched name arguments g w delivers) (Runs-GuestRuns _ v rest)

-- With the wasmtime runner, under a policy that was read from a file, whatever lines a client
-- sends: the world changes only by executions of the guest on the input of a call, for tools that
-- the probe listed and the file allows. In each, wasmtime is handed a store with exactly the
-- variables, the fuel, the memory and the deadline of the grant that the file calls for, and one
-- preopened directory to a mount, which can be written just when the mount is read-write. The
-- defaults behind these grants are the built-in limits overridden by the file's `defaults`, with
-- exactly the variables and mounts of that section. (What an abandoned thread does, which runs
-- such an execution, is seen up to the end of the client's wait.) The channel delivers what the
-- thread returns.
pub handle_lines-GuestRuns :
    {W : Type 0} (host : Host W) (serde : Serde) (debug_str : Text → Text) (r : WasmRunner host)
    (raw : RawPolicy) (base_dir : Text) (source : Option Text) (p : Policy)
    → Delivers host
    → RawIsSorted raw
    → from_raw raw base_dir source ≡ ok p
    → (lines : List Text) (s : Session W)
    → IsDefaultsOf raw.defaults base_dir p.defaults
      × GuestRuns host serde r raw base_dir p.defaults s.world
          (handle_lines serde debug_str (wasm_runner host serde r) p lines s).0.world
handle_lines-GuestRuns host serde debug_str r raw base_dir source p delivers sorted loaded lines s =
    let (are, runs) =
      handle_lines-Runs serde debug_str (wasm_runner host serde r) raw base_dir source p sorted
        loaded lines s in
    (are, Runs-GuestRuns host serde r raw base_dir p.defaults delivers s.world _ runs)
