-- ===== src/Main/Check.antt =====
-- `cmd_check` of main.rs: the policy is read, and the host directories of its mounts are looked up;
-- and `real_main`, which calls the three commands.
use toolcage.Prelude.{
  ℕ, ◌+◌, ◌-◌, Text, text, text_eq, Bool, List, [], ◌∷◌, ◌++◌, Option, none, some, Result, ok, err,
  ltb, if◌then◌else◌, length, keep,
}
use toolcage.Rpc.{toolcage_version}
use toolcage.Policy.{Grant, Mount, mode_as_str, UnlistedMode, Decision, Policy, PolicyError}
use toolcage.Policy.Decide.{load, decide, listed_tools}
use toolcage.Sandbox.{shown_nat}
use toolcage.Main.{
  System, Ended, ended, usage_error, policy_error, printed, problems_found, shown_usage,
  unknown_command,
}
use toolcage.Main.Flags.{check_flags}
use toolcage.Main.Commands.{cmd_run, cmd_inspect}

-- The count of problems, which takes 2^31 mounts to leave the range of the code's i32, and the
-- lines that are printed.
abbrev pub Checked : Type 0
Checked = ℕ × List Text

abbrev and_then : Checked → Checked → Checked
and_then (n, ls) (k, ms) = (n + k, ls ++ ms)

unfoldable pub grant_line : Text → Grant → Text
grant_line label g =
    text "  "
    ++ (label
        ++ (text ": timeout "
            ++ (shown_nat g.limits.timeout_ms
                ++ (text "ms, fuel "
                    ++ (shown_nat g.limits.fuel
                        ++ (text ", mem "
                            ++ (shown_nat g.limits.memory_max_mb
                                ++ (text "MB, output "
                                    ++ (shown_nat g.limits.output_max_kb
                                        ++ (text "KB, "
                                            ++ (shown_nat (length g.env)
                                                ++ (text " env var(s), "
                                                    ++ (shown_nat (length g.mounts)
                                                        ++ text " mount(s)")))))))))))))

unfoldable pub mount_line : Mount → Bool → Text
mount_line m found =
    text "    "
    ++ (m.guest_path
        ++ (text " -> "
            ++ (m.host_path
                ++ (text " ("
                    ++ (mode_as_str m.mode
                        ++ (text ")" ++ (if found then [] else text "  [MISSING HOST DIR]")))))))

unfoldable pub policy_line : Text → List (Text × Bool) → UnlistedMode → Text
policy_line path listed unlisted =
    let allowed = length (keep (λ e. e.1) listed) in
    text "policy "
    ++ (path
        ++ (text ": "
            ++ (shown_nat (length listed)
                ++ (text " tool(s) listed ("
                    ++ (shown_nat allowed
                        ++ (text " allowed, "
                            ++ (shown_nat (length listed - allowed)
                                ++ (text " denied), unlisted tools: " ++ (elim unlisted [
                                  | UnlistedMode.deny ↦ text "deny"
                                  | UnlistedMode.defaults ↦ text "run with defaults"
                                ])))))))))

module _ (is_dir : Text → Bool) where
  -- The loop of `check_grant` over the mounts.
  unfoldable pub check_mounts : List Mount → Checked
  check_mounts [] = (0, [])
  check_mounts (m ∷ ms) =
      let found = is_dir m.host_path in
      and_then ((if found then 0 else 1), mount_line m found ∷ []) (check_mounts ms)

  unfoldable pub check_grant : Text → Grant → Checked
  check_grant label g = and_then (0, grant_line label g ∷ []) (check_mounts g.mounts)

  abbrev pub check_decision : Text → Decision → Checked
  check_decision name (Decision.deny reason listed) = (0, [])
  check_decision name (Decision.allow g) = check_grant name g

  -- The loop over the listed tools.
  unfoldable pub check_tools : Policy → List (Text × Bool) → Checked
  check_tools p [] = (0, [])
  check_tools p ((name, allowed) ∷ rest) =
      and_then
        (if allowed
          then check_decision name (decide p name)
          else (0, (text "  " ++ (name ++ text ": DENIED")) ∷ []))
        (check_tools p rest)

  -- `cmd_check` from the count on.
  unfoldable pub check_policy : Text → Policy → Checked
  check_policy path p =
      and_then (0, policy_line path (listed_tools p) p.unlisted ∷ [])
        (and_then (check_grant (text "defaults") p.defaults) (check_tools p (listed_tools p)))

module _ {W : Type 0} (sys : System W) where
  abbrev check_end : W → Checked → Ended W
  check_end w (problems, lines) =
      if ltb 0 problems
      then ended 1 (problems_found problems lines) w
      else ended 0 (printed (lines ++ text "check OK" ∷ [])) w

  unfoldable pub check_loaded : Text → Result PolicyError Policy → W → Ended W
  check_loaded path (err e) w = ended 1 (policy_error e) w
  check_loaded path (ok p) w = check_end w (check_policy (λ d. sys.is_dir d w) path p)

  unfoldable pub check_with : Result Text (Option Text) → W → Ended W
  check_with (err e) w = ended 2 (usage_error e) w
  check_with (ok none) w = ended 2 (usage_error (text "check requires --policy")) w
  check_with (ok (some path)) w =
      check_loaded path (load (λ p. sys.read_to_string p w) sys.parent sys.parse_yaml path) w

  unfoldable pub cmd_check : List Text → W → Ended W
  cmd_check args w = check_with (check_flags sys.debug_str args none) w

  -- `args` are the arguments behind the program's name.
  unfoldable pub real_main : List Text → List (Option Text) → W → Ended W
  real_main [] lines w = ended 2 shown_usage w
  real_main (command ∷ args) lines w =
      if text_eq command (text "run")
      then cmd_run sys args lines w
      else if text_eq command (text "inspect")
      then cmd_inspect sys args w
      else if text_eq command (text "check")
      then cmd_check args w
      else if text_eq command (text "--version")
      then ended 0 (printed ((text "toolcage " ++ toolcage_version) ∷ [])) w
      else if text_eq command (text "-V")
      then ended 0 (printed ((text "toolcage " ++ toolcage_version) ∷ [])) w
      else if text_eq command (text "--help")
      then ended 0 shown_usage w
      else if text_eq command (text "-h")
      then ended 0 shown_usage w
      else ended 2 (unknown_command (sys.debug_str command)) w
