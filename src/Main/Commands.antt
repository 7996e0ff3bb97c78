-- ===== src/Main/Commands.antt =====
-- The commands of main.rs, but for `check`: `cmd_run`, `cmd_inspect`, `real_main`, and the key that
-- signs cursors.
use toolcage.Prelude.{
  ℕ, Bytes, Text, text, Bool, true, false, List, [], ◌∷◌, ◌++◌, map, Option, none, some, Result, ok,
  err, ltb, if◌then◌else◌, length, replicate, le_bytes, to_le_bytes_64,
}
use toolcage.TreeMap.{insert_all}
use toolcage.Json.{
  Value, Number, null, bool, number, string, array, to_items, json, get_field, as_str, nat, ◌>>=◌,
  text_or,
}
use toolcage.Rpc.{toolcage_version}
use toolcage.Runner.{ToolDef, ProbeResult}
use toolcage.Policy.{Grant, default_grant, Policy, PolicyError}
use toolcage.Policy.Decide.{permissive_vacuum, load}
use toolcage.Audit.Sha256.{sha256, sha256_hex}
use toolcage.Server.{Entry, new_paginated, string_or_null}
use toolcage.Server.Handlers.{handle_lines, finish}
use toolcage.Sandbox.{shown_nat}
use toolcage.Sandbox.Guest.{elapsed_ms}
use toolcage.Sandbox.Calls.{WasmRunner, NewError, new_runner, wasm_runner}
use toolcage.Main.{
  System, Ended, ended, usage_error, policy_error, audit_error, runner_error, print_error, served,
  printed,
}
use toolcage.Main.Flags.{RunFlags, no_run_flags, run_flags, inspect_flags}

-- Listing tools needs no capabilities at all.
unfoldable pub probe_grant : Policy → Grant
probe_grant p = record { limits = p.defaults.limits; env = []; mounts = [] }

abbrev pub hash_or_unreadable : Option Bytes → Text
hash_or_unreadable none = text "unreadable"
hash_or_unreadable (some b) = sha256_hex b

abbrev pub hash_if_read : Option Bytes → Option Text
hash_if_read none = none
hash_if_read (some b) = some (sha256_hex b)

unfoldable pub start_fields : Text → Text → Option Text → Option Text → ℕ → List (Text × Value)
start_fields module_path module_sha policy_path policy_sha page_size =
    (text "toolcage_version", string toolcage_version)
    ∷ (text "module", string module_path)
    ∷ (text "module_sha256", string module_sha)
    ∷ (text "policy", string_or_null policy_path)
    ∷ (text "policy_sha256", string_or_null policy_sha)
    ∷ (text "page_size", nat page_size)
    ∷ []

abbrev number_or_null : Option Number → Value
number_or_null none = null
number_or_null (some n) = number n

unfoldable pub probe_fields : ProbeResult → List (Text × Value)
probe_fields probe =
    (text "tools", array (to_items (map (λ t. string t.name) probe.tools)))
    ∷ (text "tool_count", nat (length probe.tools))
    ∷ (text "truncated", bool probe.truncated)
    ∷ (text "protocol", string probe.protocol)
    ∷ (text "duration_ms", nat probe.stats.duration_ms)
    ∷ (text "exit_code", number_or_null probe.stats.exit_code)
    ∷ []

abbrev pub entry : Text → List (Text × Value) → Entry
entry event fs = record { event = event; fields = insert_all fs [] }

unfoldable pub probe_entry : ProbeResult → Entry
probe_entry probe = entry (text "probe") (probe_fields probe)

-- The lines up to the first error.
unfoldable pub readable : List (Option Text) → List Text
readable [] = []
readable (none ∷ rest) = []
readable (some l ∷ rest) = l ∷ readable rest

abbrev or_empty : Option Bytes → Bytes
or_empty none = []
or_empty (some b) = b

unfoldable pub tool_line : ToolDef → Text
tool_line t =
    let desc = text_or (get_field (text "description") t.raw >>= as_str) [] in
    text "  " ++ (t.name ++ (text "  " ++ desc))

unfoldable pub inspect_lines : ProbeResult → List Text
inspect_lines probe =
    let name = text_or (get_field (text "name") probe.server_info >>= as_str) (text "unknown") in
    (text "server: "
      ++ (name
          ++ (text " (protocol "
              ++ (probe.protocol
                  ++ (text ") - "
                      ++ (shown_nat (length probe.tools)
                          ++ (text " tool(s)"
                              ++ (if probe.truncated
                                  then text " [listing truncated: guest paginated]"
                                  else []))))))))
    ∷ map tool_line probe.tools

unfoldable pub inspect_json : ProbeResult → Value
inspect_json probe = json (
    (text "serverInfo", probe.server_info)
    ∷ (text "protocol", string probe.protocol)
    ∷ (text "truncated", bool probe.truncated)
    ∷ (text "tools", array (to_items (map (λ t. t.raw) probe.tools)))
    ∷ [])

module _ {W : Type 0} (sys : System W) where
  unfoldable pub ephemeral_cursor_key : Text → W → Bytes
  ephemeral_cursor_key module_sha w = sha256 (
      or_empty (sys.urandom w)
      ++ (module_sha
          ++ (le_bytes 4 sys.process_id
              ++ (to_le_bytes_64 (sys.now_unix_ms w) ++ to_le_bytes_64 sys.marker))))

  unfoldable pub policy_at : Option Text → W → Result PolicyError Policy
  policy_at none w = ok permissive_vacuum
  policy_at (some path) w = load (λ p. sys.read_to_string p w) sys.parent sys.parse_yaml path

  unfoldable pub audit_at : Option Text → W → Result Text W
  audit_at none w = ok w
  audit_at (some path) w = sys.open_append path w

  unfoldable pub cursor_key_for : ℕ → Text → W → Bytes
  cursor_key_for page_size module_sha w =
      if ltb 0 page_size then ephemeral_cursor_key module_sha w else replicate 32 0

  unfoldable pub start_entry : RunFlags → Text → Text → W → Entry
  start_entry f module_path module_sha w =
      let policy_sha = hash_if_read (f.policy_path >>= λ path. sys.read path w) in
      entry (text "session_start")
        (start_fields module_path module_sha f.policy_path policy_sha f.page_size)

  -- `cmd_run` from `module_sha` on.
  unfoldable pub serve :
      RunFlags → Text → Policy → List (Option Text) → WasmRunner sys.host → W → Ended W
  serve f module_path p lines r w =
      let module_sha = hash_or_unreadable (sys.read module_path w) in
      let start = start_entry f module_path module_sha w in
      let probe = probe_entry r.probe in
      let key = cursor_key_for f.page_size module_sha w in
      let (s, replies) =
        handle_lines sys.serde sys.debug_str (wasm_runner sys.host sys.serde r) p (readable lines)
          (new_paginated f.page_size key w) in
      let done = finish (elapsed_ms sys.host (sys.host.now w) s.world) s in
      ended 0 (served (start ∷ probe ∷ done.audit) replies) done.world

  unfoldable pub with_runner :
      RunFlags
      → Text
      → Policy
      → List (Option Text)
      → Result NewError (WasmRunner sys.host) × W
      → Ended W
  with_runner f module_path p lines (err e, w) = ended 2 (runner_error e) w
  with_runner f module_path p lines (ok r, w) = serve f module_path p lines r w

  unfoldable pub with_audit :
      RunFlags → Text → Policy → List (Option Text) → Result Text W → W → Ended W
  with_audit f module_path p lines (err e) w = ended 2 (audit_error e) w
  with_audit f module_path p lines (ok v) w =
      with_runner f module_path p lines
        (new_runner sys.host sys.serde module_path (probe_grant p) f.debug_guest_stderr v)

  unfoldable pub with_policy :
      RunFlags → Text → List (Option Text) → Result PolicyError Policy → W → Ended W
  with_policy f module_path lines (err e) w = ended 2 (policy_error e) w
  with_policy f module_path lines (ok p) w =
      with_audit f module_path p lines (audit_at f.audit_path w) w

  -- The match on the module, and the policy.
  unfoldable pub with_module : RunFlags → List (Option Text) → Option Text → W → Ended W
  with_module f lines none w = ended 2 (usage_error (text "run requires --module")) w
  with_module f lines (some module_path) w =
      with_policy f module_path lines (policy_at f.policy_path w) w

  unfoldable pub with_flags : List (Option Text) → Result Text RunFlags → W → Ended W
  with_flags lines (err e) w = ended 2 (usage_error e) w
  with_flags lines (ok f) w = with_module f lines f.module_path w

  -- `lines` are the lines of the standard input.
  unfoldable pub cmd_run : List Text → List (Option Text) → W → Ended W
  cmd_run args lines w = with_flags lines (run_flags sys.debug_str args no_run_flags) w

  -- `cmd_inspect` from `runner.probe()` on.
  unfoldable pub inspect_probe : Bool → Result NewError (WasmRunner sys.host) × W → Ended W
  inspect_probe as_json (err e, w) = ended 2 (runner_error e) w
  inspect_probe false (ok r, w) = ended 0 (printed (inspect_lines r.probe)) w
  inspect_probe true (ok r, w) = elim (sys.to_string_pretty (inspect_json r.probe)) [
    | err e ↦ ended 2 (print_error e) w
    | ok s ↦ ended 0 (printed (s ∷ [])) w
  ]

  unfoldable pub inspect_with : Result Text (Option Text × Bool) → W → Ended W
  inspect_with (err e) w = ended 2 (usage_error e) w
  inspect_with (ok (none, as_json)) w = ended 2 (usage_error (text "inspect requires --module")) w
  inspect_with (ok (some module_path, as_json)) w =
      inspect_probe as_json (new_runner sys.host sys.serde module_path default_grant false w)

  unfoldable pub cmd_inspect : List Text → W → Ended W
  cmd_inspect args w = inspect_with (inspect_flags sys.debug_str args (none, false)) w
