-- ===== src/Main/Mounted.antt =====
-- What a successful `cmd_check` of main.rs is worth to `execute` of sandbox.rs.
use toolcage.Prelude.{◌≡◌, Bytes, Text, Bool, true, ok}
use toolcage.Policy.{Grant, Policy}
use toolcage.Sandbox.{Host, Perms, WasiCtx}
use toolcage.Sandbox.Guest.{execute_in, execute, store_setup}
use toolcage.Sandbox.Preopens.{IsGranted}
use toolcage.Main.{System}

-- A host directory that is there can be opened.
abbrev pub Opens : {W : Type 0} → System W → W → Type 0
Opens sys w =
    (host_path guest_path : Text) (dir_perms file_perms : Perms)
    → sys.is_dir host_path w ≡ true
    → sys.host.preopened_dir host_path guest_path dir_perms file_perms w ≡ ok tt

-- The execution comes to wasmtime, in a store with what the grant gives.
pub record Starts {W : Type 0} (host : Host W) (engine : host.Engine) (module' : host.Module)
    (g : Grant) (stdin_bytes : Bytes) (debug : Bool) (w : W) : Type 0 where
  pub ctx : WasiCtx
  pub granted : IsGranted g stdin_bytes (store_setup g ctx)
  pub execute_is :
      execute host engine module' g stdin_bytes debug w
      ≡ execute_in host engine module' g debug (host.now w) w ctx
