-- ===== src/Main/Tests.antt =====
-- Command lines on a system with one policy file, that of Policy/Tests.antt, and the host of
-- Sandbox/Tests.antt; and the theorems about main.rs there.
use toolcage.Prelude.{
  ◌==◌, if◌then◌else◌, ℕ, ◌≡◌, refl, Text, text, text_eq, cmp, split_on, true, not, List, [], ◌∷◌,
  none, some, ok, err, arith,
}
use toolcage.TreeMap.{get, insert, insert_all}
use toolcage.Policy.{Policy}
use toolcage.Policy.Tests.{file, policy, policy_run}
use toolcage.Sandbox.Tests.{host, serde, host-Delivers}
use toolcage.Main.{System, Ended, usage_error, shown_usage}
use toolcage.Main.Flags.{
  RunFlags, no_run_flags, run_flags, run_flag, set_flag, value, parse_usize, check_flags, is_flag,
}
use toolcage.Policy.Build.{from_yaml_str}
use toolcage.Policy.Decide.{load}
use toolcage.Main.Check.{cmd_check, check_with, check_loaded, check_policy, real_main}
use toolcage.Main.Printed.{print_flags, run_flags-print_flags}
use toolcage.Main.Dispatch.{IsMain, real_main-IsMain}

-- The clock is the world; the directory /srv is missing at time 0.
abbrev sys : System ℕ
sys = record {
  host = host;
  serde = serde;
  debug_str = λ t. t;
  to_string_pretty = λ v. ok (text "pretty");
  read_to_string = λ p w. some (text "version: 1");
  read = λ p w. some (text "bytes");
  is_dir = λ d w. if (w == 0) then not (text_eq d (text "/srv")) else true;
  open_append = λ p w. ok w;
  parent = λ p. some (text "etc");
  parse_yaml = λ t. some file;
  urandom = λ w. none;
  process_id = 77;
  now_unix_ms = λ w. w;
  marker = 5;
}

abbrev wanted : RunFlags
wanted = record {
  module_path = some (text "server.wasm");
  policy_path = some (text "etc/p.yaml");
  audit_path = none;
  page_size = 20;
  debug_guest_stderr = true;
}

abbrev check_args : List Text
check_args = text "--policy" ∷ text "etc/p.yaml" ∷ []

main_run : Unit {0}
unfolding text text_eq cmp split_on get insert insert_all run_flags run_flag set_flag value is_flag
    parse_usize toolcage.Main.Flags.parse_unsigned toolcage.Main.Flags.parse_digits
    toolcage.Main.Flags.requires_value toolcage.Main.Flags.unknown_flag
main_run = tt

-- The last of two values counts; a flag is no value; a number is decimal.
flags_run :
    (run_flags sys.debug_str
        (text "--module"
          ∷ text "a"
          ∷ text "--page-size"
          ∷ text "+07"
          ∷ text "--module"
          ∷ text "b"
          ∷ [])
        no_run_flags
      ≡ ok (record no_run_flags { module_path = some (text "b"); page_size = 7 }))
    × ((run_flags sys.debug_str (text "--module" ∷ text "--policy" ∷ text "x" ∷ []) no_run_flags
          ≡ err (text "--module requires a value"))
        × (run_flags sys.debug_str
              (text "--page-size" ∷ text "18446744073709551616" ∷ [])
              no_run_flags
            ≡ err (text "--page-size requires a non-negative integer")))
unfolding main_run
flags_run = (refl, (refl, refl))

run_flags-print_flags_example :
    run_flags sys.debug_str (print_flags wanted) no_run_flags ≡ ok wanted
unfolding main_run
run_flags-print_flags_example =
    run_flags-print_flags sys.debug_str wanted refl refl tt (omega arith)

real_main-IsMain_example : IsMain sys (text "run" ∷ text "--module" ∷ text "server.wasm" ∷ []) 9 (
    real_main sys
      (text "run" ∷ text "--module" ∷ text "server.wasm" ∷ [])
      (some (text "ready") ∷ some (text "call") ∷ none ∷ some (text "call") ∷ [])
      9)
real_main-IsMain_example =
    real_main-IsMain sys (text "run" ∷ text "--module" ∷ text "server.wasm" ∷ [])
      (some (text "ready") ∷ some (text "call") ∷ none ∷ some (text "call") ∷ []) 9 host-Delivers

check_run : Unit {0}
unfolding main_run policy_run cmd_check check_with check_flags check_loaded load from_yaml_str
    check_policy toolcage.Main.Check.check_grant toolcage.Main.Check.check_mounts
    toolcage.Main.Check.check_tools
check_run = tt

-- At time 1 all directories are there.
check_codes : ((cmd_check sys check_args 0).code ≡ 1) × ((cmd_check sys check_args 1).code ≡ 0)
unfolding check_run
check_codes = (refl, refl)

abbrev loaded : Policy
loaded = record policy { source = some (text "etc/p.yaml") }
