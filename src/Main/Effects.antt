-- ===== src/Main/Effects.antt =====
-- What the runner of sandbox.rs does to the world when main.rs probes a module and serves a
-- session.
use toolcage.Prelude.{◌≡◌, inl, inr, refl, Text, Bool, true, Result-cases}
use toolcage.Json.{Value, Serde}
use toolcage.Rpc.{protocol_fallback}
use toolcage.Rpc.Transcript.{guest_transcript_call, guest_transcript_probe}
use toolcage.Policy.{Grant, Decision, Policy}
use toolcage.Policy.Decide.{decide}
use toolcage.Server.{Session}
use toolcage.Server.Handlers.{is_known}
use toolcage.Server.Steps.{Step, quiet, ready, noted, refused, ran, Steps, done, first}
use toolcage.Sandbox.{Host}
use toolcage.Sandbox.Guest.{run_guest}
use toolcage.Sandbox.Calls.{WasmRunner, probed, new_runner, wasm_runner, parse_probe}
use toolcage.Sandbox.Touched.{Touched, Delivers, run_guest-Touched}
use toolcage.Sandbox.Contained.{call-Touched}

module _ {W : Type 0} (host : Host W) (serde : Serde) where
  -- Executions of the guest on the input of a call, each for a tool that the probe listed, within
  -- the grant that the policy decides on.
  pub data GrantedRuns (r : WasmRunner host) (p : Policy) : W → W → Type 0 where
    no_more : (w : W) → GrantedRuns r p w w
    one_more :
        (w u v : W) (name : Text) (arguments : Value) (g : Grant)
        → is_known (wasm_runner host serde r) name ≡ true
        → decide p name ≡ Decision.allow g
        → Touched host r.engine r.module_ g
            (guest_transcript_call serde r.probe.protocol name arguments)
            r.debug_guest_stderr
            w
            u
        → GrantedRuns r p u v
        → GrantedRuns r p w v

  -- The probe: nothing is touched, or the guest is executed on the probe's input, within the
  -- grant.
  pub data Probes (g : Grant) (w v : W) : Type 0 where
    not_probed : v ≡ w → Probes g w v
    was_probed :
        (engine : host.Engine) (module' : host.Module) (debug : Bool)
        → Touched host engine module' g (guest_transcript_probe serde protocol_fallback) debug w v
        → Probes g w v

  probed-world :
      (e : host.Engine) (m : host.Module) (debug : Bool) (run : _) (w : W)
      → (probed host serde e m debug (run, w)).1 ≡ w
  unfolding probed
  probed-world e m debug run w = elim (Result-cases (parse_probe serde run)) [
    | inl (probe, h) ↦ rw (h, probed) refl
    | inr (x, h) ↦ rw (h, probed) refl
  ]

  pub new_runner-Probes :
      (path : Text) (g : Grant) (debug : Bool) (w : W)
      → Delivers host
      → Probes g w (new_runner host serde path g debug w).1
  unfolding new_runner
  new_runner-Probes path g debug w delivers = elim (Result-cases (host.new_engine true true)) [
    | inr (x, h) ↦ rw (h, new_runner) (not_probed refl)
    | inl (e, h) ↦ elim (Result-cases (host.from_file e path w)) [
      | inr (x, k) ↦ rw (h, k, new_runner) (not_probed refl)
      | inl (m, k) ↦
          let stdin_bytes = guest_transcript_probe serde protocol_fallback in
          let out = run_guest host e m g stdin_bytes debug w in
          rw (h, k, new_runner, probed-world e m debug out.0 out.1)
            (was_probed e m debug (run_guest-Touched host e m g stdin_bytes debug w delivers))
    ]
  ]

  module _ (r : WasmRunner host) (p : Policy) (delivers : Delivers host) where
    Step-GrantedRuns :
        {R : Type 0} (s t : Session W) (v : W)
        → Step (wasm_runner host serde r) p R s t
        → GrantedRuns r p t.world v
        → GrantedRuns r p s.world v
    Step-GrantedRuns s t v quiet q = q
    Step-GrantedRuns s t v (ready x) q = q
    Step-GrantedRuns s t v (noted event fs n) q = q
    Step-GrantedRuns s t v (refused name word fs i d k) q = q
    Step-GrantedRuns s t v (ran name arguments g fs i k d z) q =
        one_more s.world _ v name arguments g k d
          (call-Touched host serde r name arguments g s.world delivers) q

    pub Steps-GrantedRuns :
        (s t : Session W)
        → Steps (wasm_runner host serde r) p serde s t
        → GrantedRuns r p s.world t.world
    Steps-GrantedRuns s t (done _) = no_more s.world
    Steps-GrantedRuns s u (first line _ t _ q qs) =
        Step-GrantedRuns s t u.world q (Steps-GrantedRuns t u qs)
