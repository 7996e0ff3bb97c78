-- ===== src/Server/Privacy.antt =====
-- What an audit entry of `handle_call` in server.rs can tell of a call's arguments and its result.
use toolcage.Prelude.{
  ℕ, ◌≡◌, refl, sym, ◌∙◌, ap, ap₂, Text, text, Bool, List, [], ◌∷◌, ◌++◌, none, some, length,
  Option-cases, Bool-cases, inl, inr,
}
use toolcage.TreeMap.{TreeMap, insert, insert_all}
use toolcage.Json.{Value, bool, string, nat, get_field, or_null, Serde}
use toolcage.Runner.{FailClass, fail_as_str, CallOutcome, completed, failed, Runner}
use toolcage.Policy.{Grant, Decision, Policy}
use toolcage.Policy.Decide.{decide}
use toolcage.Audit.Sha256.{sha256_hex}
use toolcage.Server.{
  Session, Entry, is_error_flag, digest_args, settle, result_fields, deny_fields, allow_fields,
}
use toolcage.Server.Handlers.{is_known, call_named, decided, run_tool, count_call, deny_word}

-- All that is noted of how a call ended: of a result, the flag, the length and the hash; of a
-- guest's error, its code; of a failure, its class.
pub data Seen : Type 0 where
  answer : (is_error : Bool) (size : ℕ) (hash : Text) → Seen
  rpc_error : (code : Value) → Seen
  invalid : Seen
  failure : (class : FailClass) → Seen

module _ (serde : Serde) where
  unfoldable pub seen_result : Value → Seen
  seen_result v =
      answer (is_error_flag v) (length (serde.to_string v)) (sha256_hex (serde.to_string v))

  unfoldable pub seen : CallOutcome → Seen
  seen (failed class detail) = failure class
  seen (completed response) = elim (get_field (text "result") response) [
    | some v ↦ seen_result v
    | none ↦ elim (get_field (text "error") response) [
      | some v ↦ rpc_error (or_null (get_field (text "code") v))
      | none ↦ invalid
    ]
  ]

-- The audit fields, from what is seen.
noted_fields : Seen → TreeMap Value → TreeMap Value
noted_fields (answer e size hash) fs = insert (text "result_sha256") (string hash) (
    insert (text "result_bytes") (nat size)
      (insert (text "is_error") (bool e) (insert (text "outcome") (string (text "ok")) fs)))
noted_fields (rpc_error code) fs =
    insert (text "guest_error_code") code
      (insert (text "outcome") (string (text "guest_rpc_error")) fs)
noted_fields invalid fs = insert (text "outcome") (string (text "invalid_guest_response")) fs
noted_fields (failure class) fs = insert (text "outcome") (string (fail_as_str class)) fs

settle-noted_fields :
    (serde : Serde) (id : Value) (o : CallOutcome) (fs : TreeMap Value)
    → (settle serde id o fs).0 ≡ noted_fields (seen serde o) fs
unfolding settle seen seen_result noted_fields result_fields
settle-noted_fields serde id (failed class detail) fs = refl
settle-noted_fields serde id (completed response) fs =
    elim (Option-cases (get_field (text "result") response)) [
      | inr (v, e) ↦ rw (e, settle, seen) refl
      | inl e ↦ elim (Option-cases (get_field (text "error") response)) [
        | inr (v, h) ↦ rw (e, h, settle, seen) refl
        | inl h ↦ rw (e, h, settle, seen) refl
      ]
    ]

module _ {W : Type 0} (serde : Serde) (debug_str : Text → Text) (runner : Runner W)
    (policy : Policy) where
  -- The audit entries after a call by name.
  unfoldable pub audit_after : Value → Text → Value → Session W → List Entry
  audit_after id name arguments s =
      (call_named serde debug_str runner policy id name arguments s).0.audit

  call_entry : TreeMap Value → Entry
  call_entry fs = record { event = text "call"; fields = fs }

  run_tool-audit :
      (id : Value) (name : Text) (arguments : Value) (g : Grant) (s : Session W)
      → let r = (runner.call name arguments g s.world).0 in
        (run_tool serde debug_str runner policy id name arguments g s).0.audit
        ≡ s.audit
          ++ call_entry (
              noted_fields
                (seen serde r.outcome)
                (allow_fields name g r.stats (digest_args serde arguments)))
            ∷ []
  unfolding run_tool call_entry
  run_tool-audit id name arguments g s =
      ap (λ fs. s.audit ++ call_entry fs ∷ []) (settle-noted_fields serde id _ _)

  IsAlike : Text → Value → Value → Session W → Session W → Type 0
  IsAlike name arguments arguments' s s' =
      (g : Grant)
      → decide policy name ≡ Decision.allow g
      → let r = (runner.call name arguments g s.world).0 in
        let r' = (runner.call name arguments' g s'.world).0 in
        (r.stats ≡ r'.stats) × (seen serde r.outcome ≡ seen serde r'.outcome)

  decided-private :
      (id id' : Value) (name : Text) (arguments arguments' : Value) (s s' : Session W)
      (k : Decision)
      → s.audit ≡ s'.audit
      → digest_args serde arguments ≡ digest_args serde arguments'
      → IsAlike name arguments arguments' s s'
      → decide policy name ≡ k
      → (decided serde debug_str runner policy id name arguments (count_call s) k).0.audit
        ≡ (decided serde debug_str runner policy id' name arguments' (count_call s') k).0.audit
  unfolding decided IsAlike
  decided-private id id' name arguments arguments' s s' (Decision.deny reason listed) a d r e =
      ap₂
        (λ t g.
          t
          ++ record {
            event = text "call";
            fields = insert_all (deny_fields name (deny_word listed) g) [];
          }
            ∷ [])
        a d
  decided-private id id' name arguments arguments' s s' (Decision.allow g) a d r e =
      let (stats, ends) = r g e in
      run_tool-audit id name arguments g (count_call s)
      ∙ ap₂ (λ t fs. t ++ call_entry fs ∷ []) a
          (ap₂ noted_fields ends (ap₂ (allow_fields name g) stats d))
      ∙ sym (run_tool-audit id' name arguments' g (count_call s'))

  -- A call with other arguments, of a session with another world, and under another id, leaves the
  -- same audit entries if its arguments have the same length and hash and, when the tool is
  -- allowed, the runner's statistics are the same and the two ends are alike in what `seen` keeps
  -- of them: of a result, its error flag, length and hash; of a guest's error, its code; of a
  -- failure, its class.
  pub call_named-private :
      (id id' : Value) (name : Text) (arguments arguments' : Value) (s s' : Session W)
      → s.audit ≡ s'.audit
      → digest_args serde arguments ≡ digest_args serde arguments'
      → ((g : Grant)
          → decide policy name ≡ Decision.allow g
          → let r = (runner.call name arguments g s.world).0 in
            let r' = (runner.call name arguments' g s'.world).0 in
            (r.stats ≡ r'.stats) × (seen serde r.outcome ≡ seen serde r'.outcome))
      → audit_after id name arguments s ≡ audit_after id' name arguments' s'
  unfolding audit_after call_named IsAlike
  call_named-private id id' name arguments arguments' s s' a d r =
      elim (Bool-cases (is_known runner name)) [
        | inl e ↦
            rw (e, audit_after, call_named)
              (decided-private id id' name arguments arguments' s s' _ a d r refl)
        | inr e ↦
            rw (e, audit_after, call_named)
              (ap₂
                (λ t g.
                  t
                  ++ record {
                    event = text "call";
                    fields = insert_all (deny_fields name (text "deny_unknown_tool") g) [];
                  }
                    ∷ [])
                a d)
      ]
