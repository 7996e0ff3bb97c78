-- ===== src/Sandbox/Outcomes.antt =====
-- What `call` of sandbox.rs reports of a run: answers, failures and their classes.
use toolcage.Prelude.{
  ℕ, suc, zero, ◌≤◌, ◌<◌, ◌≡◌, ◌≢◌, inl, inr, refl, subst, Text, text, ◌++◌, true, false, Option,
  none, some, length, ltb, ◌==◌, Bool-cases, ℤ, pos, negsuc, arith,
}
use toolcage.Json.{Value, Serde}
use toolcage.Rpc.{guest_call_id}
use toolcage.Rpc.Extract.{extract_response}
use toolcage.Rpc.Scanned.{first_answer, object_lines, extract_response_lem}
use toolcage.Policy.{Grant}
use toolcage.Policy.Ranges.{LimitsInRange}
use toolcage.Runner.{
  FailClass, output_overflow, guest_exit, no_response, CallOutcome, completed, failed,
}
use toolcage.Rpc.Transcript.{guest_transcript_call}
use toolcage.Sandbox.Guest.{run_guest}
use toolcage.Sandbox.{Host, ExitKind, exit, trapped, host_failed, RunOutput, shown_nat, shown_int}
use toolcage.Sandbox.Calls.{
  WasmRunner, call, stats_of, output_max_bytes, overflow_detail, fail_of, outcome_of, call_result,
}

-- The details of failures that a trap or the host does not give.
abbrev pub overflow_text : ℕ → ℕ → Text
overflow_text budget size =
    text "guest stdout reached "
    ++ (shown_nat size ++ (text " bytes (budget " ++ (shown_nat budget ++ text ")")))

abbrev exit_text : ℤ → Text
exit_text code = text "guest exited with code " ++ (shown_int code ++ text " before answering")

abbrev silent_text : Text
silent_text = text "guest completed without a response for the call id"

-- The class and the detail of a guest that did not answer, by how it ended.
pub data IsFailure : ExitKind → FailClass → Text → Type 0 where
  cut_short : (class : FailClass) (detail : Text) → IsFailure (trapped class detail) class detail
  not_started : (detail : Text) → IsFailure (host_failed detail) FailClass.internal detail
  gave_up : (code : ℤ) → code ≢ pos 0 → IsFailure (exit code) guest_exit (exit_text code)
  left : (code : ℤ) → code ≡ pos 0 → IsFailure (exit code) no_response silent_text
  returned : IsFailure ExitKind.clean no_response silent_text

-- The outcome of a run, by the size of the standard output, the first answer in it and the exit.
pub data IsOutcome (budget size : ℕ) (answer : Option Value) (exit_kind : ExitKind)
    : CallOutcome → Type 0 where
  flooded :
      (detail : Text)
      → budget < size
      → detail ≡ overflow_text budget size
      → IsOutcome budget size answer exit_kind (failed output_overflow detail)
  answered :
      (r : Value)
      → size ≤ budget
      → answer ≡ some r
      → IsOutcome budget size answer exit_kind (completed r)
  silent :
      (class : FailClass) (detail : Text)
      → size ≤ budget
      → answer ≡ none
      → IsFailure exit_kind class detail
      → IsOutcome budget size answer exit_kind (failed class detail)

fail_of-IsFailure : (e : ExitKind) → IsFailure e (fail_of e).0 (fail_of e).1
unfolding fail_of shown_int
fail_of-IsFailure ExitKind.clean = returned
fail_of-IsFailure (exit (pos zero)) = left (pos zero) refl
fail_of-IsFailure (exit (pos (suc n))) =
    let e : (suc n == 0) ≡ false = ground arith in rw (e, fail_of) (gave_up (pos (suc n)) cc)
fail_of-IsFailure (exit (negsuc n)) = gave_up (negsuc n) cc
fail_of-IsFailure (trapped class detail) = cut_short class detail
fail_of-IsFailure (host_failed detail) = not_started detail

module _ (budget size : ℕ) (exit_kind : ExitKind) where
  outcome_of-IsOutcome :
      (answer : Option Value)
      → size ≤ budget
      → IsOutcome budget size answer exit_kind (outcome_of answer exit_kind)
  unfolding outcome_of
  outcome_of-IsOutcome (some r) h = answered r h refl
  outcome_of-IsOutcome none h =
      silent (fail_of exit_kind).0 (fail_of exit_kind).1 h refl (fail_of-IsFailure exit_kind)

ltb_lem : (a b : ℕ) → ltb a b ≡ true → a < b
ltb_lem a b h = ground arith

not_ltb_lem : (a b : ℕ) → ltb a b ≡ false → b ≤ a
not_ltb_lem a b h = ground arith

-- The answer of a run: the first line of its output that answers the call.
abbrev pub answer_of : Serde → RunOutput → Option Value
answer_of serde run = first_answer guest_call_id (object_lines serde run.stdout)

call_result-IsOutcome :
    (serde : Serde) (g : Grant) (run : RunOutput)
    → LimitsInRange g.limits
    → IsOutcome
        (output_max_bytes g)
        (length run.stdout)
        (answer_of serde run)
        run.exit_kind
        (call_result serde g run).outcome
unfolding call_result stats_of overflow_detail
call_result-IsOutcome serde g run range =
    elim (Bool-cases (ltb (output_max_bytes g) (length run.stdout))) [
      | inl h ↦ rw (h, call_result) (flooded _ (ltb_lem _ _ h) refl)
      | inr h ↦
          let (output_low, output_high) = range.output_in in
          let small : length run.stdout ≤ output_max_bytes g = not_ltb_lem _ _ h in
          let scanned = extract_response_lem serde run.stdout guest_call_id (omega arith) in
          rw (h, call_result)
            (subst
              (λ a.
                IsOutcome (output_max_bytes g) (length run.stdout) a run.exit_kind (
                  outcome_of (extract_response serde run.stdout guest_call_id).found run.exit_kind))
              scanned.0
              (outcome_of-IsOutcome (output_max_bytes g) (length run.stdout) run.exit_kind _ small))
    ]

-- For a grant with limits in range, the outcome of a call is an overflow just when the guest wrote
-- more than its output budget, with both sizes in the detail; otherwise it is the first JSON
-- object in the output that answers the call, however the guest ended; and with no such object it
-- is a failure, whose class is that of the trap, `internal` for an error of the host, `guest_exit`
-- for an exit code other than 0, and `no_response` for a guest that returned or exited with 0. The
-- detail is that of the trap or of the host, names the exit code, or says that there was no
-- response.
pub call-IsOutcome :
    {W : Type 0} (host : Host W) (serde : Serde) (r : WasmRunner host) (tool : Text)
    (arguments : Value) (g : Grant) (w : W)
    → LimitsInRange g.limits
    → let stdin_bytes = guest_transcript_call serde r.probe.protocol tool arguments in
      let run = (run_guest host r.engine r.module_ g stdin_bytes r.debug_guest_stderr w).0 in
      IsOutcome
        (output_max_bytes g)
        (length run.stdout)
        (answer_of serde run)
        run.exit_kind
        (call host serde r tool arguments g w).0.outcome
unfolding call
call-IsOutcome host serde r tool arguments g w range = call_result-IsOutcome serde g _ range
