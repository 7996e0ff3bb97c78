-- ===== src/Sandbox/Touched.antt =====
-- What an execution of a guest in sandbox.rs can touch.
use toolcage.Prelude.{
  ℕ, ◌≡◌, ◌⊎◌, inl, inr, refl, ap, subst, Bytes, Text, text, Bool, none, some, ok, Result-cases,
  Option-cases, if-cases, not, ◌&&◌, is_empty,
}
use toolcage.Policy.{Grant}
use toolcage.Sandbox.{StoreSetup, Host, RunOutput, ExitKind, classify_error}
use toolcage.Sandbox.Guest.{
  preopen_all, wasi_start, store_setup, start_guest, run_instance, show_stderr, collect, execute_in,
  execute, joined, join_budget, run_guest,
}
use toolcage.Sandbox.Preopens.{IsGranted, preopen_all-IsGranted}

-- What the standard error can have shown since.
abbrev Shown : {W : Type 0} → Host W → W → W → Type 0
Shown host u v = (v ≡ u) ⊎ ((a : Text) × (b : Text) × (v ≡ host.eprintln b (host.eprintln a u)))

-- The worlds that an execution can leave: nothing is touched, or the guest is instantiated in a
-- store with what the grant gives, or it is also started there; or the client's wait is over
-- first, and the world is what the thread, which runs `execute` with that grant, has made of it by
-- then.
pub data Touched {W : Type 0} (host : Host W) (engine : host.Engine) (module' : host.Module)
    (g : Grant) (stdin_bytes : Bytes) (debug_guest_stderr : Bool) (w : W) : W → Type 0 where
  kept : (v : W) → v ≡ w → Touched host engine module' g stdin_bytes debug_guest_stderr w v
  loaded :
      (s : StoreSetup) (v : W)
      → IsGranted g stdin_bytes s
      → Shown host (host.instantiate engine module' s w).1.1 v
      → Touched host engine module' g stdin_bytes debug_guest_stderr w v
  started :
      (s : StoreSetup) (i : host.Instance) (start : host.Func) (v : W)
      → IsGranted g stdin_bytes s
      → (host.instantiate engine module' s w).0 ≡ ok i
      → host.get_typed_func i (host.instantiate engine module' s w).1.0 (text "_start") ≡ ok start
      → Shown host
          (host.call start
            (host.instantiate engine module' s w).1.0
            (host.instantiate engine module' s w).1.1).1.1
          v
      → Touched host engine module' g stdin_bytes debug_guest_stderr w v
  cut :
      (v : W)
      → host.recv_timeout
          (join_budget g)
          (execute host engine module' g stdin_bytes debug_guest_stderr)
          w
        ≡ (none, v)
      → Touched host engine module' g stdin_bytes debug_guest_stderr w v

-- What `recv_timeout` receives is what the thread's job returns, and the world is then the job's.
abbrev pub Delivers : {W : Type 0} → Host W → Type 0
Delivers {W} host =
    (limit : ℕ) (job : W → RunOutput × W) (w : W) (a : RunOutput) (v : W)
    → host.recv_timeout limit job w ≡ (some a, v)
    → job w ≡ (a, v)

module _ {W : Type 0} (host : Host W) where
  show_stderr-Shown :
      (debug : Bool) (stderr : Bytes) (w : W) → Shown host w (show_stderr host debug stderr w)
  unfolding show_stderr
  show_stderr-Shown debug stderr w =
      if-cases {A = W} (Shown host w) (debug && not (is_empty stderr)) (λ h. inr (_, _, refl))
        (λ h. inl refl)

  collect-Shown :
      (g : Grant) (debug : Bool) (started_at : ℕ) (r : ExitKind × (host.Store × W))
      → Shown host r.1.1 (collect host g debug started_at r).1
  unfolding collect
  collect-Shown g debug started_at (exit_kind, (store, w)) = show_stderr-Shown debug _ w

  module _ (engine : host.Engine) (module' : host.Module) (g : Grant) (stdin_bytes : Bytes)
      (debug : Bool) (w : W) where
    instance-Touched :
        (started_at : ℕ) (s : StoreSetup)
        → IsGranted g stdin_bytes s
        → Touched host engine module' g stdin_bytes debug w
            (collect host g debug started_at
              (run_instance host (host.instantiate engine module' s w))).1
    unfolding run_instance start_guest
    instance-Touched started_at s granted =
        let made = host.instantiate engine module' s w in
        elim (Result-cases made.0) [
          | inr (e, h) ↦
              loaded s _ granted
                (rw (h, run_instance) (collect-Shown g debug started_at (classify_error e, made.1)))
          | inl (i, h) ↦ elim (Result-cases (host.get_typed_func i made.1.0 (text "_start"))) [
            | inr (e, k) ↦ loaded s _ granted (
                rw (h, k, run_instance, start_guest) (collect-Shown g debug started_at (_, made.1)))
            | inl (f, k) ↦ started s i f _ granted h k (
                rw (h, k, run_instance, start_guest)
                  (collect-Shown g debug started_at (_, (host.call f made.1.0 made.1.1).1)))
          ]
        ]

    execute-Touched :
        Touched host engine module' g stdin_bytes debug w
          (execute host engine module' g stdin_bytes debug w).1
    unfolding execute execute_in
    execute-Touched =
        let P = Touched host engine module' g stdin_bytes debug w in
        elim (Result-cases (preopen_all host w g.mounts (wasi_start g stdin_bytes))) [
          | inr (e, h) ↦ rw (h, execute) (kept w refl)
          | inl (ctx, h) ↦ elim (Result-cases (host.set_fuel engine g.limits.fuel)) [
            | inr (e, k) ↦ rw (h, k, execute, execute_in) (kept w refl)
            | inl (u, k) ↦ elim (Result-cases (host.add_to_linker engine)) [
              | inr (e, l) ↦ rw (h, k, l, execute, execute_in) (kept w refl)
              | inl (u', l) ↦
                  rw (h, k, l, execute, execute_in)
                    (instance-Touched (host.now w) (store_setup g ctx)
                      (preopen_all-IsGranted host w g stdin_bytes ctx h))
            ]
          ]
        ]

    pub run_guest-Touched :
        Delivers host
        → Touched host engine module' g stdin_bytes debug w
            (run_guest host engine module' g stdin_bytes debug w).1
    unfolding run_guest joined
    run_guest-Touched delivers =
        let job = execute host engine module' g stdin_bytes debug in
        let got = host.recv_timeout (join_budget g) job w in
        elim (Option-cases got.0) [
          | inl h ↦ rw (h, run_guest, joined) (cut got.1 (ap (λ o. (o, got.1)) h))
          | inr (out, h) ↦
              rw (h, run_guest, joined)
                (subst (Touched host engine module' g stdin_bytes debug w)
                  (ap (λ r. r.1)
                    (delivers (join_budget g) job w out got.1 (ap (λ o. (o, got.1)) h)))
                  execute-Touched)
        ]
