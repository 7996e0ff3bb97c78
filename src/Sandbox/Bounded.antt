-- ===== src/Sandbox/Bounded.antt =====
-- What `run_guest` of sandbox.rs can keep and report of a guest, whatever the guest does.
use toolcage.Prelude.{
  ℕ, ◌+◌, ◌^◌, ◌≤◌, ◌<◌, ◌≡◌, refl, ap, ◌∙◌, subst, Bytes, text, Bool, Option, none, some, Result,
  ok, err, length, [], Result-cases, Option-cases, inl, inr, arith,
}
use toolcage.Policy.{Grant}
use toolcage.Policy.Ranges.{LimitsInRange}
use toolcage.Sandbox.{
  stderr_cap_bytes, output_slack_bytes, ExitKind, RunOutput, WasiCtx, StoreSetup, Host, HostError,
}
use toolcage.Sandbox.Guest.{
  host_error, abandoned, fuel_spent, stdout_cap_of, wasi_start, store_setup, preopen_all,
  start_guest, run_instance, collect, execute_in, execute, joined, join_budget, run_guest,
}
use toolcage.Sandbox.Calls.{output_max_bytes}
use toolcage.Sandbox.Touched.{Delivers}
use toolcage.Sandbox.Preopens.{preopen_all-IsPreopened}

-- A pipe never holds more than the capacity that it was made with.
pub record Caps {W : Type 0} (host : Host W) : Type 0 where
  pub stdout_cap : host.Store → ℕ
  pub stderr_cap : host.Store → ℕ
  pub stdout_fits : (s : host.Store) → length (host.stdout_contents s) ≤ stdout_cap s
  pub stderr_fits : (s : host.Store) → length (host.stderr_contents s) ≤ stderr_cap s
  pub instantiate_caps :
      (e : host.Engine) (m : host.Module) (s : StoreSetup) (w : W)
      → (stdout_cap (host.instantiate e m s w).1.0 ≡ s.wasi.stdout_cap)
        × (stderr_cap (host.instantiate e m s w).1.0 ≡ s.wasi.stderr_cap)
  pub call_caps :
      (f : host.Func) (s : host.Store) (w : W)
      → (stdout_cap (host.call f s w).1.0 ≡ stdout_cap s)
        × (stderr_cap (host.call f s w).1.0 ≡ stderr_cap s)

pub record IsBounded (g : Grant) (run : RunOutput) : Type 0 where
  pub fuel_within : (n : ℕ) → run.fuel_used ≡ some n → n ≤ g.limits.fuel
  pub stdout_within : length run.stdout ≤ output_max_bytes g + output_slack_bytes
  pub stderr_within : run.stderr_bytes ≤ stderr_cap_bytes
  pub duration_within : run.duration_ms < 2 ^ 64

some_lem : (a b : ℕ) → some a ≡ some b → a ≡ b
some_lem a b e = cc

fuel_spent-within : (fuel : ℕ) (left : Option ℕ) (n : ℕ) → fuel_spent fuel left ≡ some n → n ≤ fuel
fuel_spent-within fuel none n e = cc
fuel_spent-within fuel (some left) n e = omega (arith, some_lem _ _ e)

-- A run that says nothing of the guest.
blank :
    (g : Grant) (run : RunOutput)
    → run.stdout ≡ []
    → run.stderr_bytes ≡ 0
    → run.fuel_used ≡ none
    → run.duration_ms < 2 ^ 64
    → IsBounded g run
blank g run out errs fuel time = record {
  fuel_within = λ n e. cc;
  stdout_within = omega (arith, ap length out);
  stderr_within = omega (arith, errs);
  duration_within = time;
}

module _ {W : Type 0} (host : Host W) (caps : Caps host) where
  IsCapped : ℕ → ℕ → host.Store → Type 0
  IsCapped out errs s = (caps.stdout_cap s ≡ out) × (caps.stderr_cap s ≡ errs)

  run_instance-IsCapped :
      (out errs : ℕ) (made : Result HostError host.Instance × (host.Store × W))
      → IsCapped out errs made.1.0
      → IsCapped out errs (run_instance host made).1.0
  unfolding run_instance start_guest IsCapped
  run_instance-IsCapped out errs (err e, (s, w)) c = c
  run_instance-IsCapped out errs (ok i, (s, w)) c =
      elim (Result-cases (host.get_typed_func i s (text "_start"))) [
        | inr (e, k) ↦ rw (k, start_guest) c
        | inl (f, k) ↦ let (a, b) = caps.call_caps f s w in rw (k, start_guest) (a ∙ c.0, b ∙ c.1)
      ]

  collect-IsBounded :
      (g : Grant) (debug : Bool) (at : ℕ) (r : ExitKind × (host.Store × W))
      → LimitsInRange g.limits
      → IsCapped (stdout_cap_of g) stderr_cap_bytes r.1.0
      → IsBounded g (collect host g debug at r).0
  unfolding collect IsCapped stdout_cap_of
  collect-IsBounded g debug at (e, (s, w)) range (a, b) =
      let (output_low, output_high) = range.output_in in
      record {
        fuel_within = fuel_spent-within g.limits.fuel (host.get_fuel s);
        stdout_within = omega (arith, caps.stdout_fits s, a);
        stderr_within = omega (arith, caps.stderr_fits s, b);
        duration_within = omega arith;
      }

  module _ (engine : host.Engine) (module' : host.Module) (g : Grant) (stdin_bytes : Bytes)
      (debug : Bool) (w : W) (range : LimitsInRange g.limits) where
    instance-IsBounded :
        (at : ℕ) (ctx : WasiCtx)
        → preopen_all host w g.mounts (wasi_start g stdin_bytes) ≡ ok ctx
        → IsBounded g
            (collect host g debug at
              (run_instance host (host.instantiate engine module' (store_setup g ctx) w))).0
    unfolding IsCapped store_setup wasi_start
    instance-IsBounded at ctx h =
        let made = host.instantiate engine module' (store_setup g ctx) w in
        let q = preopen_all-IsPreopened host w g.mounts (wasi_start g stdin_bytes) ctx h in
        let (a, b) = caps.instantiate_caps engine module' (store_setup g ctx) w in
        collect-IsBounded g debug at (run_instance host made) range (
          run_instance-IsCapped (stdout_cap_of g) stderr_cap_bytes made
            (a ∙ ap (λ c. c.stdout_cap) q.done_is, b ∙ ap (λ c. c.stderr_cap) q.done_is))

    execute-IsBounded : IsBounded g (execute host engine module' g stdin_bytes debug w).0
    unfolding execute execute_in host_error
    execute-IsBounded =
        elim (Result-cases (preopen_all host w g.mounts (wasi_start g stdin_bytes))) [
          | inr (e, h) ↦ rw (h, execute) (blank g _ refl refl refl (omega arith))
          | inl (ctx, h) ↦ elim (Result-cases (host.set_fuel engine g.limits.fuel)) [
            | inr (e, k) ↦ rw (h, k, execute, execute_in) (blank g _ refl refl refl (omega arith))
            | inl (u, k) ↦ elim (Result-cases (host.add_to_linker engine)) [
              | inr (e, l) ↦
                  rw (h, k, l, execute, execute_in) (blank g _ refl refl refl (omega arith))
              | inl (u', l) ↦
                  rw (h, k, l, execute, execute_in) (instance-IsBounded (host.now w) ctx h)
            ]
          ]
        ]

-- However a guest behaves, what the host keeps and reports of a run stays within bounds, for a
-- grant with limits in range: the fuel that it reports is at most that of the grant, the standard
-- output is at most the output budget and the slack, the standard error at most its own cap, and
-- the time fits 64 bits. The pipes hold no more than their capacity, and the channel delivers what
-- the thread returns.
pub run_guest-IsBounded :
    {W : Type 0} (host : Host W) (engine : host.Engine) (module' : host.Module) (g : Grant)
    (stdin_bytes : Bytes) (debug : Bool) (w : W)
    → Caps host
    → Delivers host
    → LimitsInRange g.limits
    → IsBounded g (run_guest host engine module' g stdin_bytes debug w).0
unfolding run_guest joined abandoned
run_guest-IsBounded host engine module' g stdin_bytes debug w caps delivers range =
    let job = execute host engine module' g stdin_bytes debug in
    let got = host.recv_timeout (join_budget g) job w in
    elim (Option-cases got.0) [
      | inl h ↦ rw (h, run_guest, joined) (blank g _ refl refl refl (omega arith))
      | inr (out, h) ↦
          rw (h, run_guest, joined)
            (subst (IsBounded g)
              (ap (λ r. r.0) (delivers (join_budget g) job w out got.1 (ap (λ o. (o, got.1)) h)))
              (execute-IsBounded host caps engine module' g stdin_bytes debug w range))
    ]
