-- ===== src/Main/Dispatch.antt =====
-- `real_main` of main.rs: what each command does to the world.
use Prim.Native.String.{String}
use toolcage.Prelude.{
  ◌≤◌, ◌≡◌, ◌≢◌, refl, ap, Text, text, text_eq, text_eq_iff, Bool, true, false, List, [], ◌∷◌,
  Option, none, some, Bool-cases, inl, inr, if◌then◌else◌, if-cases, Result, ok, err, Result-cases,
  ltb, arith,
}
use toolcage.Policy.{default_grant, Policy, PolicyError}
use toolcage.Sandbox.Calls.{WasmRunner, NewError}
use toolcage.Sandbox.Touched.{Delivers}
use toolcage.Main.{System, Report, policy_error, Ended, ended}
use toolcage.Main.Commands.{inspect_probe, inspect_with, inspect_json, cmd_inspect}
use toolcage.Main.Check.{check_policy, check_loaded, check_with, cmd_check, real_main}
use toolcage.Main.Effects.{Probes, not_probed, new_runner-Probes}
use toolcage.Main.Served.{IsRun, cmd_run-IsRun}

-- At most a probe with the default grant, which has no variables and no mounts; and the exit code.
pub record IsHarmless {W : Type 0} (sys : System W) (w : W) (e : Ended W) : Type 0 where
  pub world_is : Probes sys.host sys.serde default_grant w e.world
  pub code_small : e.code ≤ 2

-- The command is `run`, or it is harmless.
pub data IsMain {W : Type 0} (sys : System W) (args : List Text) (w : W) (e : Ended W)
    : Type 0 where
  as_run : (rest : List Text) → args ≡ text "run" ∷ rest → IsRun sys rest w e → IsMain sys args w e
  as_other :
      ((rest : List Text) → args ≢ text "run" ∷ rest) → IsHarmless sys w e → IsMain sys args w e

module _ {W : Type 0} (sys : System W) (w : W) where
  exits_0 : (report : Report) → IsHarmless sys w (ended 0 report w)
  exits_0 report = record { world_is = not_probed refl; code_small = omega arith }

  exits_1 : (report : Report) → IsHarmless sys w (ended 1 report w)
  exits_1 report = record { world_is = not_probed refl; code_small = omega arith }

  exits_2 : (report : Report) → IsHarmless sys w (ended 2 report w)
  exits_2 report = record { world_is = not_probed refl; code_small = omega arith }

  if-IsHarmless :
      (b : Bool) (x y : Ended W)
      → IsHarmless sys w x
      → IsHarmless sys w y
      → IsHarmless sys w (if b then x else y)
  if-IsHarmless b x y p q = if-cases {A = Ended W} (IsHarmless sys w) b (λ h. p) (λ h. q)

  check_loaded-IsHarmless :
      (path : Text) (m : Result PolicyError Policy) → IsHarmless sys w (check_loaded sys path m w)
  unfolding check_loaded
  check_loaded-IsHarmless path (err e) = exits_1 (policy_error e)
  check_loaded-IsHarmless path (ok p) =
      if-cases {A = Ended W} (IsHarmless sys w)
        (ltb 0 (check_policy (λ d. sys.is_dir d w) path p).0) (λ h. exits_1 _) (λ h. exits_0 _)

  check_with-IsHarmless : (m : Result Text (Option Text)) → IsHarmless sys w (check_with sys m w)
  unfolding check_with
  check_with-IsHarmless (err e) = exits_2 _
  check_with-IsHarmless (ok none) = exits_2 _
  check_with-IsHarmless (ok (some path)) = check_loaded-IsHarmless path _

  inspect_probe-IsHarmless :
      (as_json : Bool) (m : Result NewError (WasmRunner sys.host) × W)
      → Probes sys.host sys.serde default_grant w m.1
      → IsHarmless sys w (inspect_probe sys as_json m)
  unfolding inspect_probe
  inspect_probe-IsHarmless as_json (err e, v) q = record { world_is = q; code_small = omega arith }
  inspect_probe-IsHarmless false (ok r, v) q = record { world_is = q; code_small = omega arith }
  inspect_probe-IsHarmless true (ok r, v) q =
      elim (Result-cases (sys.to_string_pretty (inspect_json r.probe))) [
        | inl (s, h) ↦ rw (h, inspect_probe) (record { world_is = q; code_small = omega arith })
        | inr (e, h) ↦ rw (h, inspect_probe) (record { world_is = q; code_small = omega arith })
      ]

  inspect_with-IsHarmless :
      Delivers sys.host
      → (m : Result Text (Option Text × Bool)) → IsHarmless sys w (inspect_with sys m w)
  unfolding inspect_with
  inspect_with-IsHarmless delivers (err e) = exits_2 _
  inspect_with-IsHarmless delivers (ok (none, as_json)) = exits_2 _
  inspect_with-IsHarmless delivers (ok (some path, as_json)) =
      inspect_probe-IsHarmless as_json _
        (new_runner-Probes sys.host sys.serde path default_grant false w delivers)

-- What the program does, by its arguments. `toolcage run` exits with 2 or with 0. With 2 it has
-- run no call of the guest, and the reason is in the flags, in the policy file, in the audit file,
-- or in the module, which it has at most probed. With 0 it has read the flags, loaded the policy,
-- opened the audit file, probed the module with no variables and no mounts, and then executed the
-- guest only for calls of tools that the probe listed, each within the grant that this policy
-- decides on. Its audit trail goes from `session_start` and `probe` to `session_end`, which has
-- the number of the calls noted in between, and the object that is logged for an entry has the
-- time, the event and each field of it. Any other command line changes the world at most by a
-- probe with no variables and no mounts, and exits with at most 2. The channel delivers what the
-- thread returns.
pub real_main-IsMain :
    {W : Type 0} (sys : System W) (args : List Text) (lines : List (Option Text)) (w : W)
    → Delivers sys.host
    → IsMain sys args w (real_main sys args lines w)
unfolding real_main cmd_check cmd_inspect
real_main-IsMain sys [] lines w delivers = as_other (λ rest e. cc) (exits_2 sys w _)
real_main-IsMain sys (command ∷ args) lines w delivers =
    elim (Bool-cases (text_eq command (text "run"))) [
      | inl e ↦
          rw (e, real_main)
            (as_run args (ap (λ c. c ∷ args) ((text_eq_iff command (text "run")).0 e))
              (cmd_run-IsRun sys args lines w delivers))
      | inr e ↦
          rw (e, real_main)
            (let is : String → Bool = λ c. text_eq command (text c) in
              as_other
                (λ rest h.
                  let same : command ≡ text "run" = cc in
                  let t : text_eq command (text "run") ≡ true =
                    (text_eq_iff command (text "run")).1 same in
                  cc)
                (if-IsHarmless sys w (is "inspect") _ _ (inspect_with-IsHarmless sys w delivers _) (
                  if-IsHarmless sys w (is "check") _ _ (check_with-IsHarmless sys w _) (
                    if-IsHarmless sys w (is "--version") _ _ (exits_0 sys w _) (
                      if-IsHarmless sys w (is "-V") _ _ (exits_0 sys w _) (
                        if-IsHarmless sys w (is "--help") _ _ (exits_0 sys w _) (
                          if-IsHarmless sys w (is "-h") _ _ (exits_0 sys w _)
                            (exits_2 sys w _))))))))
    ]
