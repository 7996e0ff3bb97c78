-- ===== src/Sandbox/Replied.antt =====
-- What a client is told of a call: `handle_call` of server.rs with the runner of sandbox.rs.
use toolcage.Prelude.{
  ◌≢◌, ℕ, ◌≤◌, ◌<◌, ◌≡◌, ◌⊎◌, inl, inr, refl, subst, Text, text, Bool, true, false, ◌&&◌, ◌||◌,
  List, [], ◌∷◌, Option, none, some, length, Option-cases, Bool-cases,
}
use toolcage.TreeMap.{TreeMap, get, contains_key}
use toolcage.Json.{minus, json, string, Value, Members, object, members, get_field, Serde}
use toolcage.Rpc.{guest_call_id, result_line, error_line, error_object_line}
use toolcage.Rpc.Transcript.{guest_transcript_call}
use toolcage.Rpc.Extract.{answers}
use toolcage.Rpc.Scanned.{first_answer}
use toolcage.Policy.{Grant, Policy}
use toolcage.Policy.Ranges.{LimitsInRange}
use toolcage.Runner.{
  FailClass, timeout, cpu_budget, output_overflow, guest_trap, guest_exit, no_response, internal,
  fail_as_str, fail_code, fail_message, CallOutcome,
}
use toolcage.Server.{Session, settle}
use toolcage.Server.Handlers.{run_tool}
use toolcage.Sandbox.{Host, ExitKind}
use toolcage.Sandbox.Guest.{run_guest}
use toolcage.Sandbox.Calls.{WasmRunner, wasm_runner, output_max_bytes}
use toolcage.Sandbox.Outcomes.{
  overflow_text, IsFailure, IsOutcome, flooded, answered, silent, answer_of, call-IsOutcome,
}

-- The code of a failure: -32005 for a budget that was exceeded, and -32000 for all else.
pub data IsCodeOf : FailClass → Value → Type 0 where
  exceeded :
      (class : FailClass)
      → (class ≡ timeout) ⊎ ((class ≡ cpu_budget) ⊎ (class ≡ output_overflow))
      → IsCodeOf class (minus 32005)
  went_wrong :
      (class : FailClass)
      → class ≢ timeout
      → class ≢ cpu_budget
      → class ≢ output_overflow
      → IsCodeOf class (minus 32000)

fail_code-IsCodeOf : (class : FailClass) → IsCodeOf class (fail_code class)
unfolding fail_code
fail_code-IsCodeOf timeout = exceeded timeout (inl refl)
fail_code-IsCodeOf cpu_budget = exceeded cpu_budget (inr (inl refl))
fail_code-IsCodeOf output_overflow = exceeded output_overflow (inr (inr refl))
fail_code-IsCodeOf guest_trap = went_wrong guest_trap (λ e. cc) (λ e. cc) (λ e. cc)
fail_code-IsCodeOf guest_exit = went_wrong guest_exit (λ e. cc) (λ e. cc) (λ e. cc)
fail_code-IsCodeOf no_response = went_wrong no_response (λ e. cc) (λ e. cc) (λ e. cc)
fail_code-IsCodeOf internal = went_wrong internal (λ e. cc) (λ e. cc) (λ e. cc)

-- The data of an error: the class and the detail.
abbrev failure_data : FailClass → Text → Value
failure_data class detail =
    json ((text "class", string (fail_as_str class)) ∷ (text "detail", string detail) ∷ [])

-- The reply to a call, by the size of the guest's output, the first answer in it, and the exit.
pub data IsReply (serde : Serde) (id : Value) (budget size : ℕ) (answer : Option Value)
    (exit_kind : ExitKind) : Text → Type 0 where
  with_result :
      (r v : Value)
      → size ≤ budget
      → answer ≡ some r
      → get_field (text "result") r ≡ some v
      → IsReply serde id budget size answer exit_kind (result_line serde id v)
  with_error :
      (r e : Value)
      → size ≤ budget
      → answer ≡ some r
      → get_field (text "result") r ≡ none
      → get_field (text "error") r ≡ some e
      → IsReply serde id budget size answer exit_kind (error_object_line serde id e)
  with_failure :
      (class : FailClass) (code : Value) (detail : Text)
      → IsCodeOf class code
      → ((budget < size) × (class ≡ output_overflow) × (detail ≡ overflow_text budget size))
        ⊎ ((size ≤ budget) × (answer ≡ none) × IsFailure exit_kind class detail)
      → IsReply serde id budget size answer exit_kind
          (error_line serde id code (fail_message class) (some (failure_data class detail)))

-- An object that answers has a result or an error.
record IsAnswering (v : Value) : Type 0 where
  has_one :
      (get_field (text "result") v ≡ none) → (e : Value) × (get_field (text "error") v ≡ some e)

some_value : (a b : Value) → some a ≡ some b → a ≡ b
some_value a b e = cc

right_of_and : (b c : Bool) → (b && c) ≡ true → c ≡ true
right_of_and true c h = h
right_of_and false c h = cc

right_of_or : (b c : Bool) → b ≡ false → (b || c) ≡ true → c ≡ true
right_of_or true c e h = cc
right_of_or false c e h = h

present :
    (k : Text) (o : TreeMap Value) → contains_key k o ≡ true → (v : Value) × (get k o ≡ some v)
present k o = elim (Option-cases (get k o)) [ inl e ↦ rw e (λ h. cc) | inr (v, e) ↦ λ h. (v, e) ]

absent : (k : Text) (o : TreeMap Value) → get k o ≡ none → contains_key k o ≡ false
absent k o e = rw (e, contains_key) refl

answers-IsAnswering :
    (id : ℕ) (o : Members) → answers id (members o) ≡ true → IsAnswering (object o)
unfolding answers get_field
answers-IsAnswering id o e = record {
  has_one = λ n.
      present (text "error") (members o)
        (right_of_or _ _ (absent (text "result") (members o) n) (right_of_and _ _ e));
}

first_answer-IsAnswering :
    (id : ℕ) (os : List Members) (v : Value) → first_answer id os ≡ some v → IsAnswering v
unfolding first_answer
first_answer-IsAnswering id [] v = λ h. cc
first_answer-IsAnswering id (o ∷ os) v = elim (Bool-cases (answers id (members o))) [
  | inl e ↦
      rw (e, first_answer)
        (λ h. subst IsAnswering (some_value (object o) v h) (answers-IsAnswering id o e))
  | inr e ↦ rw (e, first_answer) (first_answer-IsAnswering id os v)
]

module _ (serde : Serde) (id : Value) (budget size : ℕ) (answer : Option Value)
    (exit_kind : ExitKind) (fields : TreeMap Value) where
  settle-IsReply :
      (outcome : CallOutcome)
      → ((v : Value) → answer ≡ some v → IsAnswering v)
      → IsOutcome budget size answer exit_kind outcome
      → IsReply serde id budget size answer exit_kind (settle serde id outcome fields).1
  unfolding settle
  settle-IsReply o a (flooded detail h d) =
      with_failure output_overflow _ detail (fail_code-IsCodeOf output_overflow) (inl (h, refl, d))
  settle-IsReply o a (silent class detail h n f) =
      with_failure class _ detail (fail_code-IsCodeOf class) (inr (h, n, f))
  settle-IsReply o a (answered r h e) = elim (Option-cases (get_field (text "result") r)) [
    | inr (v, k) ↦ rw (k, settle) (with_result r v h e k)
    | inl k ↦
        let q = a r e in let (x, l) = q.has_one k in rw (k, l, settle) (with_error r x h e k l)
  ]

-- What a client is told of a call that is run with the wasmtime runner, for a grant with limits in
-- range: if the guest's output has a JSON object that answers the call, and is within its budget,
-- the client gets the result of the first such object, or if there is none its error, whatever
-- else the guest did. If not, it gets an error with the class and the detail. Of an output beyond
-- the budget, the detail gives its size and the budget; of one within it, without an answer, class
-- and detail are of the way the guest ended: those of the trap, the host's own detail, the exit
-- code, or that there was no response. The code is -32005 just for a time limit, fuel or output
-- that was exceeded, and -32000 for any other class. That an answer has neither result nor error
-- does not occur.
pub run_tool-IsReply :
    {W : Type 0} (host : Host W) (serde : Serde) (debug_str : Text → Text) (r : WasmRunner host)
    (p : Policy) (id : Value) (name : Text) (arguments : Value) (g : Grant) (s : Session W)
    → LimitsInRange g.limits
    → let stdin_bytes = guest_transcript_call serde r.probe.protocol name arguments in
      let run = (run_guest host r.engine r.module_ g stdin_bytes r.debug_guest_stderr s.world).0 in
      IsReply serde id
        (output_max_bytes g)
        (length run.stdout)
        (answer_of serde run)
        run.exit_kind
        (run_tool serde debug_str (wasm_runner host serde r) p id name arguments g s).1
unfolding run_tool wasm_runner
run_tool-IsReply host serde debug_str r p id name arguments g s range =
    settle-IsReply serde id _ _ _ _ _ _ (λ v e. first_answer-IsAnswering guest_call_id _ v e)
      (call-IsOutcome host serde r name arguments g s.world range)
