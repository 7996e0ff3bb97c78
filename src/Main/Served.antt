-- ===== src/Main/Served.antt =====
-- What `cmd_run` of main.rs does to the world and leaves in the audit trail.
use toolcage.Prelude.{◌≡◌, refl, subst, Text, text, List, [], Option, none, some, Result, ok, err}
use toolcage.Policy.{Grant, Policy, PolicyError}
use toolcage.Server.{Entry, new_paginated}
use toolcage.Server.Handlers.{handle_lines, finish}
use toolcage.Server.Steps.{handle_lines-Steps}
use toolcage.Sandbox.Calls.{WasmRunner, NewError, new_runner, wasm_runner}
use toolcage.Sandbox.Touched.{Delivers}
use toolcage.Main.{
  System, Report, Ended, ended, usage_error, policy_error, audit_error, runner_error, served,
}
use toolcage.Main.Flags.{RunFlags, no_run_flags, run_flags}
use toolcage.Main.Commands.{
  probe_grant, readable, policy_at, audit_at, cursor_key_for, serve, with_runner, with_audit,
  with_policy, with_module, with_flags, cmd_run, hash_or_unreadable,
}
use toolcage.Main.Effects.{GrantedRuns, Probes, Steps-GrantedRuns, new_runner-Probes}
use toolcage.Main.Trail.{IsTrail, served-IsTrail}

-- A grant for the probe: the budgets of the policy's defaults, and nothing else.
pub record IsBare (p : Policy) (g : Grant) : Type 0 where
  pub limits_are : g.limits ≡ p.defaults.limits
  pub env_is : g.env ≡ []
  pub mounts_are : g.mounts ≡ []

probe_grant-IsBare : (p : Policy) → IsBare p (probe_grant p)
unfolding probe_grant
probe_grant-IsBare p = record { limits_are = refl; env_is = refl; mounts_are = refl }

-- Why a command ends before the module is probed.
pub data IsRefused {W : Type 0} (sys : System W) (args : List Text) (w : W) : Report → Type 0 where
  bad_flags :
      (e : Text)
      → run_flags sys.debug_str args no_run_flags ≡ err e
      → IsRefused sys args w (usage_error e)
  no_module :
      (f : RunFlags)
      → run_flags sys.debug_str args no_run_flags ≡ ok f
      → f.module_path ≡ none
      → IsRefused sys args w (usage_error (text "run requires --module"))
  bad_policy :
      (f : RunFlags) (e : PolicyError)
      → run_flags sys.debug_str args no_run_flags ≡ ok f
      → policy_at sys f.policy_path w ≡ err e
      → IsRefused sys args w (policy_error e)
  no_audit :
      (f : RunFlags) (p : Policy) (e : Text)
      → run_flags sys.debug_str args no_run_flags ≡ ok f
      → policy_at sys f.policy_path w ≡ ok p
      → audit_at sys f.audit_path w ≡ err e
      → IsRefused sys args w (audit_error e)

-- The flags are read, the policy is loaded and the audit file is open.
pub record IsReady {W : Type 0} (sys : System W) (args : List Text) (w : W) (f : RunFlags)
    (path : Text) (p : Policy) (v : W) : Type 0 where
  pub flags_are : run_flags sys.debug_str args no_run_flags ≡ ok f
  pub module_is : f.module_path ≡ some path
  pub policy_is : policy_at sys f.policy_path w ≡ ok p
  pub audit_is : audit_at sys f.audit_path w ≡ ok v

-- A command that ends without serving, or that has served a session with the policy of the flags.
pub data IsRun {W : Type 0} (sys : System W) (args : List Text) (w : W) : Ended W → Type 0 where
  refused_early :
      (report : Report) → IsRefused sys args w report → IsRun sys args w (ended 2 report w)
  not_loaded :
      (f : RunFlags) (path : Text) (p : Policy) (g : Grant) (e : NewError) (v u : W)
      → IsReady sys args w f path p v
      → IsBare p g
      → new_runner sys.host sys.serde path g f.debug_guest_stderr v ≡ (err e, u)
      → Probes sys.host sys.serde g v u
      → IsRun sys args w (ended 2 (runner_error e) u)
  was_served :
      (f : RunFlags) (path : Text) (p : Policy) (g : Grant) (r : WasmRunner sys.host) (v u x : W)
      (audit : List Entry) (replies : List (Option Text))
      → IsReady sys args w f path p v
      → IsBare p g
      → new_runner sys.host sys.serde path g f.debug_guest_stderr v ≡ (ok r, u)
      → Probes sys.host sys.serde g v u
      → GrantedRuns sys.host sys.serde r p u x
      → IsTrail audit
      → IsRun sys args w (ended 0 (served audit replies) x)

module _ {W : Type 0} (sys : System W) (args : List Text) (lines : List (Option Text)) (w : W)
    (delivers : Delivers sys.host) where
  module _ (f : RunFlags) (path : Text) (p : Policy) (v : W)
      (is_ready : IsReady sys args w f path p v) where
    serve-IsRun :
        (r : WasmRunner sys.host) (u : W)
        → new_runner sys.host sys.serde path (probe_grant p) f.debug_guest_stderr v ≡ (ok r, u)
        → Probes sys.host sys.serde (probe_grant p) v u
        → IsRun sys args w (serve sys f path p lines r u)
    unfolding serve finish
    serve-IsRun r u made q =
        let key = cursor_key_for sys f.page_size (hash_or_unreadable (sys.read path u)) u in
        let runner = wasm_runner sys.host sys.serde r in
        let s =
          (handle_lines sys.serde sys.debug_str runner p (readable lines)
            (new_paginated f.page_size key u)).0 in
        was_served f path p (probe_grant p) r v u s.world _
          (handle_lines sys.serde sys.debug_str runner p (readable lines)
            (new_paginated f.page_size key u)).1
          is_ready (probe_grant-IsBare p) made q
          (Steps-GrantedRuns sys.host sys.serde r p delivers _ s (
            handle_lines-Steps sys.serde sys.debug_str runner p (readable lines)
              (new_paginated f.page_size key u)))
          (served-IsTrail sys f path p r u (readable lines))

    by_runner :
        (m : Result NewError (WasmRunner sys.host) × W)
        → new_runner sys.host sys.serde path (probe_grant p) f.debug_guest_stderr v ≡ m
        → IsRun sys args w (with_runner sys f path p lines m)
    unfolding with_runner
    by_runner (err e, u) made =
        not_loaded f path p (probe_grant p) e v u is_ready (probe_grant-IsBare p) made (
          subst (λ m. Probes sys.host sys.serde (probe_grant p) v m.1) made
            (new_runner-Probes sys.host sys.serde path (probe_grant p) f.debug_guest_stderr v
              delivers))
    by_runner (ok r, u) made = serve-IsRun r u made (
        subst (λ m. Probes sys.host sys.serde (probe_grant p) v m.1) made
          (new_runner-Probes sys.host sys.serde path (probe_grant p) f.debug_guest_stderr v
            delivers))

  by_audit :
      (f : RunFlags) (path : Text) (p : Policy) (a : Result Text W)
      → f.module_path ≡ some path
      → run_flags sys.debug_str args no_run_flags ≡ ok f
      → policy_at sys f.policy_path w ≡ ok p
      → audit_at sys f.audit_path w ≡ a
      → IsRun sys args w (with_audit sys f path p lines a w)
  unfolding with_audit
  by_audit f path p (err e) named flags policy opened =
      refused_early _ (no_audit f p e flags policy opened)
  by_audit f path p (ok v) named flags policy opened =
      by_runner f path p v
        (record { flags_are = flags; module_is = named; policy_is = policy; audit_is = opened }) _
        refl

  by_policy :
      (f : RunFlags) (path : Text) (m : Result PolicyError Policy)
      → f.module_path ≡ some path
      → run_flags sys.debug_str args no_run_flags ≡ ok f
      → policy_at sys f.policy_path w ≡ m
      → IsRun sys args w (with_policy sys f path lines m w)
  unfolding with_policy
  by_policy f path (err e) named flags policy = refused_early _ (bad_policy f e flags policy)
  by_policy f path (ok p) named flags policy = by_audit f path p _ named flags policy refl

  by_module :
      (f : RunFlags) (o : Option Text)
      → f.module_path ≡ o
      → run_flags sys.debug_str args no_run_flags ≡ ok f
      → IsRun sys args w (with_module sys f lines o w)
  unfolding with_module
  by_module f none named flags = refused_early _ (no_module f flags named)
  by_module f (some path) named flags = by_policy f path _ named flags refl

  by_flags :
      (m : Result Text RunFlags)
      → run_flags sys.debug_str args no_run_flags ≡ m
      → IsRun sys args w (with_flags sys lines m w)
  unfolding with_flags
  by_flags (err e) flags = refused_early _ (bad_flags e flags)
  by_flags (ok f) flags = by_module f f.module_path refl flags

-- What `toolcage run` does, whatever its arguments, the policy file, the guest and the client.
pub cmd_run-IsRun :
    {W : Type 0} (sys : System W) (args : List Text) (lines : List (Option Text)) (w : W)
    → Delivers sys.host
    → IsRun sys args w (cmd_run sys args lines w)
unfolding cmd_run
cmd_run-IsRun sys args lines w delivers =
    by_flags sys args lines w delivers (run_flags sys.debug_str args no_run_flags) refl
