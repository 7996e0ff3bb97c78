-- ===== src/Server/Safety.antt =====
-- What the lines of a client can make the `Session` of server.rs do to the world, under a policy
-- file that was read by policy.rs.
use toolcage.Prelude.{◌≡◌, subst, true, Text, Option, List, ok}
use toolcage.Json.{Value, Serde}
use toolcage.Runner.{Runner}
use toolcage.Policy.{RawPolicy, Grant, Decision, Policy}
use toolcage.Policy.Build.{from_raw}
use toolcage.Policy.Decisions.{
  RawIsSorted, IsDefaultsOf, IsDecision, from_raw_lem, decide-from_raw, decide-GrantIsValid,
}
use toolcage.Policy.Grants.{GrantIsValid}
use toolcage.Server.{Session}
use toolcage.Server.Handlers.{is_known, handle_lines}
use toolcage.Server.Steps.{
  Step, quiet, ready, noted, refused, ran, Steps, done, first, handle_lines-Steps,
}

-- One world after the other: each change is one run of a known tool, for which the file calls for a
-- grant, with that grant, whose limits, variables and mounts are valid.
pub data Runs {W : Type 0} (runner : Runner W) (raw : RawPolicy) (base_dir : Text)
    (defaults : Grant) : W → W → Type 0 where
  stay : (w : W) → Runs runner raw base_dir defaults w w
  run :
      (w v : W) (name : Text) (arguments : Value) (g : Grant)
      → is_known runner name ≡ true
      → IsDecision raw base_dir defaults name (Decision.allow g)
      → GrantIsValid g
      → Runs runner raw base_dir defaults (runner.call name arguments g w).1 v
      → Runs runner raw base_dir defaults w v

module _ {W : Type 0} (serde : Serde) (runner : Runner W) (raw : RawPolicy) (base_dir : Text)
    (source : Option Text) (p : Policy) (sorted : RawIsSorted raw)
    (loaded : from_raw raw base_dir source ≡ ok p) where
  Step-Runs :
      {R : Type 0} (s t : Session W) (v : W)
      → Step runner p R s t
      → Runs runner raw base_dir p.defaults t.world v
      → Runs runner raw base_dir p.defaults s.world v
  Step-Runs s t v quiet r = r
  Step-Runs s t v (ready q) r = r
  Step-Runs s t v (noted event fs n) r = r
  Step-Runs s t v (refused name word fs i d k) r = r
  Step-Runs s t v (ran name arguments g fs i k d z) r =
      run s.world v name arguments g k
        (subst (IsDecision raw base_dir p.defaults name) d
          (decide-from_raw raw base_dir source p name sorted loaded).2)
        (decide-GrantIsValid raw base_dir source p name g sorted loaded d) r

  Steps-Runs :
      (s t : Session W)
      → Steps runner p serde s t
      → Runs runner raw base_dir p.defaults s.world t.world
  Steps-Runs s t (done _) = stay s.world
  Steps-Runs s u (first line _ t _ q qs) = Step-Runs s t u.world q (Steps-Runs t u qs)

-- Under a policy that was read from a file, whatever lines a client sends, in whatever order, the
-- world is changed only by runs of tools that the runner knows and that the file allows, each with
-- the grant that the file calls for, whose limits, variables and mounts are in order. The defaults
-- behind these grants are the built-in limits overridden by the file's `defaults`, with exactly the
-- variables and mounts of that section.
pub handle_lines-Runs :
    {W : Type 0} (serde : Serde) (debug_str : Text → Text) (runner : Runner W) (raw : RawPolicy)
    (base_dir : Text) (source : Option Text) (p : Policy)
    → RawIsSorted raw
    → from_raw raw base_dir source ≡ ok p
    → (lines : List Text) (s : Session W)
    → IsDefaultsOf raw.defaults base_dir p.defaults
      × Runs runner raw base_dir p.defaults s.world
          (handle_lines serde debug_str runner p lines s).0.world
handle_lines-Runs serde debug_str runner raw base_dir source p sorted loaded lines s = (
  (from_raw_lem raw base_dir source p sorted loaded).defaults_are,
  Steps-Runs serde runner raw base_dir source p sorted loaded s _
      (handle_lines-Steps serde debug_str runner p lines s),
)
