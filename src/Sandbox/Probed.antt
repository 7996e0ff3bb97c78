-- ===== src/Sandbox/Probed.antt =====
-- What `parse_probe` of sandbox.rs makes of the output of a probe.
use toolcage.Prelude.{
  ℕ, suc, ◌+◌, ◌^◌, ◌<◌, ◌≡◌, ◌≢◌, ◌↔◌, refl, sym, ap, ◌∙◌, subst, Text, text, Bool, true, false,
  List, [], ◌∷◌, map, Option, none, some, Result, ok, err, length, keep, All, Option-cases, inl,
  inr, arith,
}
use toolcage.Json.{Value, get_field, as_str, as_array, ◌>>=◌, or_null, text_or, Serde}
use toolcage.Rpc.{protocol_fallback, guest_init_id, guest_call_id}
use toolcage.Rpc.Scanned.{first_answer, object_lines, solid_lines, extract_response_lem}
use toolcage.Runner.{ToolDef, ProbeResult}
use toolcage.Sandbox.{ExitKind, exit, trapped, host_failed, RunOutput}
use toolcage.Sandbox.Calls.{
  stats_of, tool_defs, ProbeError, before_execution, no_answer, no_tools, protocol_of, probe_of,
  is_present, parse_output, unless_failed, parse_probe,
}

abbrev pub name_of : Value → Option Text
name_of t = get_field (text "name") t >>= as_str

abbrev pub is_named : Value → Bool
is_named t = elim (name_of t) [ some name ↦ true | none ↦ false ]

-- The tools are the elements that have a string for a name, in order, each with its name.
pub record IsListing (arr : List Value) (tools : List ToolDef) : Type 0 where
  pub raws_are : map (λ t. t.raw) tools ≡ keep is_named arr
  pub names_are : All (λ t. name_of t.raw ≡ some t.name) tools

tool_defs-IsListing : (arr : List Value) → IsListing arr (tool_defs arr)
unfolding tool_defs
tool_defs-IsListing [] = record { raws_are = refl; names_are = tt }
tool_defs-IsListing (v ∷ vs) =
    let q = tool_defs-IsListing vs in
    elim (Option-cases (name_of v)) [
      | inl h ↦
          rw (h, tool_defs) (record { raws_are = rw (h, keep) q.raws_are; names_are = q.names_are })
      | inr (name, h) ↦
          rw (h, tool_defs)
            (record {
              raws_are = rw (h, keep) (ap (λ l. v ∷ l) q.raws_are);
              names_are = (h, q.names_are);
            })
    ]

-- A field of the result in the answer to a request.
pub result_field : Serde → RunOutput → ℕ → Text → Option Value
result_field serde run id k =
    first_answer id (object_lines serde run.stdout) >>= get_field (text "result") >>= get_field k

-- What is read off the answers to `initialize` and `tools/list`.
pub record IsProbeOf (serde : Serde) (run : RunOutput) (probe : ProbeResult) : Type 0 where
  pub protocol_is :
      probe.protocol
      ≡ text_or
          (result_field serde run guest_init_id (text "protocolVersion") >>= as_str)
          protocol_fallback
  pub info_is :
      probe.server_info ≡ or_null (result_field serde run guest_init_id (text "serverInfo"))
  pub truncated_is :
      (probe.truncated ≡ false) ↔ (result_field serde run guest_call_id (text "nextCursor") ≡ none)
  pub bytes_are : probe.stats.stdout_bytes ≡ length run.stdout
  pub garbage_is :
      length (object_lines serde run.stdout) + probe.stats.garbage_lines
      ≡ length (solid_lines run.stdout)

-- The run did not end with an error of the host.
abbrev pub WasRun : RunOutput → Type 0
WasRun run = (detail : Text) → run.exit_kind ≢ host_failed detail

pub data IsProbed (serde : Serde) (run : RunOutput) : Result ProbeError ProbeResult → Type 0 where
  not_run :
      (detail : Text)
      → run.exit_kind ≡ host_failed detail
      → IsProbed serde run (err (before_execution detail))
  unanswered :
      WasRun run
      → first_answer guest_call_id (object_lines serde run.stdout) ≡ none
      → IsProbed serde run (err (no_answer run.exit_kind (length run.stdout)))
  unlisted :
      (r : Value)
      → WasRun run
      → first_answer guest_call_id (object_lines serde run.stdout) ≡ some r
      → result_field serde run guest_call_id (text "tools") >>= as_array ≡ none
      → IsProbed serde run (err no_tools)
  listed :
      (arr : List Value) (probe : ProbeResult)
      → WasRun run
      → result_field serde run guest_call_id (text "tools") >>= as_array ≡ some arr
      → IsListing arr probe.tools
      → IsProbeOf serde run probe
      → IsProbed serde run (ok probe)

get_field-or_null : (k : Text) (o : Option Value) → get_field k (or_null o) ≡ (o >>= get_field k)
unfolding get_field
get_field-or_null k none = refl
get_field-or_null k (some v) = refl

is_present_iff : (o : Option Value) → (is_present o ≡ false) ↔ (o ≡ none)
is_present_iff none = (λ e. refl, λ e. refl)
is_present_iff (some v) = (λ e. cc, λ e. cc)

shown_protocol :
    (o : Option Text)
    → ◌≡◌ {A = Text}
        (elim o [ some p ↦ p | none ↦ protocol_fallback ])
        (text_or o protocol_fallback)
shown_protocol none = refl
shown_protocol (some p) = refl

module _ (serde : Serde) (run : RunOutput) where
  -- The fields of the results that `parse_probe` looks at.
  result_field-found :
      (id : ℕ) (found : Option Value) (k : Text)
      → found ≡ first_answer id (object_lines serde run.stdout)
      → get_field k (or_null (found >>= get_field (text "result"))) ≡ result_field serde run id k
  unfolding result_field
  result_field-found id found k e =
      get_field-or_null k _ ∙ ap (λ o. o >>= get_field (text "result") >>= get_field k) e

  protocol_of-found :
      (found : Option Value)
      → found ≡ first_answer guest_init_id (object_lines serde run.stdout)
      → protocol_of (or_null (found >>= get_field (text "result")))
        ≡ text_or
            (result_field serde run guest_init_id (text "protocolVersion") >>= as_str)
            protocol_fallback
  unfolding protocol_of
  protocol_of-found found e =
      shown_protocol (
        get_field (text "protocolVersion") (or_null (found >>= get_field (text "result")))
        >>= as_str)
      ∙ ap (λ o. text_or (o >>= as_str) protocol_fallback)
          (result_field-found guest_init_id found (text "protocolVersion") e)

  module _ (fits : suc (length run.stdout) < 2 ^ 64) where
    parse_output-IsProbed : WasRun run → IsProbed serde run (parse_output serde run)
    unfolding parse_output probe_of stats_of
    parse_output-IsProbed was =
        let init = extract_response_lem serde run.stdout guest_init_id fits in
        let list = extract_response_lem serde run.stdout guest_call_id fits in
        let tools = text "tools" in
        elim (Option-cases (first_answer guest_call_id (object_lines serde run.stdout))) [
          | inl h ↦ rw (list.0 ∙ h, parse_output) (unanswered was h)
          | inr (r, h) ↦
              let field : (k : Text)
                  → get_field k (or_null (get_field (text "result") r))
                    ≡ result_field serde run guest_call_id k =
                λ k. result_field-found guest_call_id (some r) k (sym h) in
              elim (Option-cases
                (get_field tools (or_null (get_field (text "result") r)) >>= as_array)) [
                  | inl k ↦
                      rw (list.0 ∙ h, parse_output, k, probe_of)
                        (unlisted r was h (sym (ap (λ o. o >>= as_array) (field tools)) ∙ k))
                  | inr (arr, k) ↦
                      rw (list.0 ∙ h, parse_output, k, probe_of)
                        (listed arr _ was (sym (ap (λ o. o >>= as_array) (field tools)) ∙ k)
                          (tool_defs-IsListing arr)
                          (record {
                            protocol_is = protocol_of-found _ init.0;
                            info_is =
                                ap or_null
                                  (result_field-found guest_init_id _ (text "serverInfo") init.0);
                            truncated_is =
                                subst
                                  (λ o. (is_present o ≡ false) ↔ (
                                    result_field serde run guest_call_id (text "nextCursor")
                                    ≡ none))
                                  (sym (field (text "nextCursor"))) (is_present_iff _);
                            bytes_are = refl;
                            garbage_is = omega (arith, list.1.0, list.1.1);
                          }))
                ]
        ]

    by_exit :
        (e : ExitKind)
        → run.exit_kind ≡ e
        → IsProbed serde run (unless_failed e (parse_output serde run))
    unfolding unless_failed
    by_exit (host_failed detail) h = not_run detail h
    by_exit ExitKind.clean h = parse_output-IsProbed (λ d q. cc)
    by_exit (exit code) h = parse_output-IsProbed (λ d q. cc)
    by_exit (trapped class detail) h = parse_output-IsProbed (λ d q. cc)

-- What the probe of a module reports: the error of the host just if the guest could not be run,
-- whatever it wrote; of a guest that was run, an error if it did not answer `tools/list`, with its
-- exit and the size of its output, or if the answer has no array `result.tools`. Otherwise the
-- tools are the elements of that array with a string `name`, in order and unchanged; the protocol
-- is the one in the answer to `initialize` or else the fallback; the listing counts as truncated
-- just when it has a `nextCursor`; and every line that is not blank and no JSON object counts as
-- garbage. The guest's output is shorter than 2^64 - 1 bytes.
pub parse_probe-IsProbed :
    (serde : Serde) (run : RunOutput)
    → suc (length run.stdout) < 2 ^ 64
    → IsProbed serde run (parse_probe serde run)
unfolding parse_probe
parse_probe-IsProbed serde run fits = by_exit serde run fits run.exit_kind refl
