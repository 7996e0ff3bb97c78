-- ===== src/Server/Steps.antt =====
-- What one input line does to the `Session` of server.rs, as a step relation.
use toolcage.Prelude.{
  Text, text, text_eq, text_eq_iff, Bool, true, false, not, List, [], ◌∷◌, Option, Option-cases,
  Result-cases, Bool-cases, ◌≡◌, ◌≢◌, refl, ap, inl, inr, if◌then◌else◌, if-cases, u64, ◌+◌, Result,
  ok, err, arith,
}
use toolcage.TreeMap.{TreeMap}
use toolcage.Json.{Value, get_field, as_str, ◌>>=◌, Serde}
use toolcage.Rpc.{Incoming, request, notification, malformed, parse_error, parse_line}
use toolcage.Runner.{Runner}
use toolcage.Policy.{Reason, Grant, Decision, Policy}
use toolcage.Policy.Decide.{decide}
use toolcage.Paginate.Cursor.{CursorError, Page}
use toolcage.Server.{Session, log_map, digest_args}
use toolcage.Server.Handlers.{
  handle_list, handle_call, handle_initialize, handle_request, handle_incoming, handle_line,
  handle_lines, answer_page, cursor_param, Answer, not_initialized, call_named, decided, run_tool,
  is_known, deny_word, count_call,
}
use toolcage.Server.Stamps.{IsUnstamped, empty-IsUnstamped, insert_all-IsUnstamped}
use toolcage.Server.Records.{Records, allow_fields-Records, deny_fields-Records, settled}
use toolcage.Server.Lines.{is_blank}

-- A line with the notification that initializes the session.
abbrev pub IsReadyLine : Serde → Text → Type 0
IsReadyLine serde line =
    (is_blank line ≡ false)
    × ((params : Value) × (parse_line serde line
          ≡ notification (text "notifications/initialized") params))

-- A note is no call, and leaves the stamps alone.
pub record IsNote (event : Text) (fs : TreeMap Value) : Type 0 where
  pub no_call : event ≢ text "call"
  pub unstamped : IsUnstamped fs

module _ {W : Type 0} (runner : Runner W) (policy : Policy) where
  -- The word for a tool that is not run.
  pub data IsRefusal (name : Text) : Text → Type 0 where
    unknown : is_known runner name ≡ false → IsRefusal name (text "deny_unknown_tool")
    by_policy :
        is_known runner name ≡ true
        → (reason : Reason) (listed : Bool) → decide policy name ≡ Decision.deny reason listed
        → IsRefusal name (deny_word listed)

  -- A line is read over, initializes the session, adds an entry that is no call, has a call refused
  -- and noted, or has a known tool run with the grant of the policy and noted.
  pub data Step (Ready : Type 0) (s : Session W) : Session W → Type 0 where
    quiet : Step Ready s s
    ready : Ready → Step Ready s (record s { initialized = true })
    noted :
        (event : Text) (fs : TreeMap Value) → IsNote event fs → Step Ready s (log_map event fs s)
    refused :
        (name word : Text) (fs : TreeMap Value)
        → s.initialized ≡ true
        → IsRefusal name word
        → Records name word fs
        → Step Ready s (log_map (text "call") fs (count_call s))
    ran :
        (name : Text) (arguments : Value) (g : Grant) (fs : TreeMap Value)
        → s.initialized ≡ true
        → is_known runner name ≡ true
        → decide policy name ≡ Decision.allow g
        → Records name (text "allow") fs
        → Step Ready s (
            log_map (text "call") fs (record s {
              calls = u64 (s.calls + 1);
              world = (runner.call name arguments g s.world).1;
            }))

  -- One step for each line.
  pub data Steps (serde : Serde) : Session W → Session W → Type 0 where
    done : (s : Session W) → Steps serde s s
    first :
        (line : Text) (s t u : Session W)
        → Step (IsReadyLine serde line) s t
        → Steps serde t u
        → Steps serde s u

module _ {W : Type 0} (serde : Serde) (debug_str : Text → Text) (runner : Runner W)
    (policy : Policy) (R : Type 0) where
  answer_page-Step :
      (id : Value) (s : Session W) (g : Result CursorError Page)
      → Step runner policy R s (answer_page serde debug_str runner policy id s g).0
  unfolding answer_page text text_eq toolcage.Server.Handlers.list_fields
      toolcage.Server.Handlers.bad_cursor_fields
  answer_page-Step id s (ok g) = noted _ _ (record {
    no_call = λ e. absurd (ground arith);
    unstamped =
        insert_all-IsUnstamped _ []
          (
            (refl, refl),
            ((refl, refl), ((refl, refl), ((refl, refl), ((refl, refl), ((refl, refl), tt))))),
          )
          empty-IsUnstamped;
  })
  answer_page-Step id s (err e) = noted _ _ (record {
    no_call = λ e. absurd (ground arith);
    unstamped = insert_all-IsUnstamped _ [] ((refl, refl), ((refl, refl), tt)) empty-IsUnstamped;
  })

  handle_list-Step :
      (id params : Value) (s : Session W)
      → Step runner policy R s (handle_list serde debug_str runner policy id params s).0
  unfolding handle_list text text_eq toolcage.Server.Handlers.bad_cursor_fields
  handle_list-Step id params s =
      elim (Result-cases (cursor_param (get_field (text "cursor") params))) [
        | inl (cursor, e) ↦ rw (e, handle_list) (answer_page-Step id s _)
        | inr (u, e) ↦
            rw (e, handle_list)
              (noted _ _ (record {
                no_call = λ e. absurd (ground arith);
                unstamped =
                    insert_all-IsUnstamped _ [] ((refl, refl), ((refl, refl), tt))
                      empty-IsUnstamped;
              }))
      ]

  decided-Step :
      (id : Value) (name : Text) (arguments : Value) (s : Session W) (d : Decision)
      → s.initialized ≡ true
      → is_known runner name ≡ true
      → decide policy name ≡ d
      → Step runner policy R s
          (decided serde debug_str runner policy id name arguments (count_call s) d).0
  unfolding decided run_tool
  decided-Step id name arguments s (Decision.allow g) i k e =
      ran name arguments g _ i k e
        (settled serde id _ name (allow_fields-Records name g _ (digest_args serde arguments)) _)
  decided-Step id name arguments s (Decision.deny reason listed) i k e =
      refused name (deny_word listed) _ i (by_policy k reason listed e)
        (deny_fields-Records name (deny_word listed) (digest_args serde arguments))

  call_named-Step :
      (id : Value) (name : Text) (arguments : Value) (s : Session W)
      → s.initialized ≡ true
      → Step runner policy R s (call_named serde debug_str runner policy id name arguments s).0
  unfolding call_named
  call_named-Step id name arguments s i = elim (Bool-cases (is_known runner name)) [
    | inl e ↦ rw (e, call_named) (decided-Step id name arguments s _ i e refl)
    | inr e ↦
        rw (e, call_named)
          (refused name _ _ i (unknown e)
            (deny_fields-Records name _ (digest_args serde arguments)))
  ]

  handle_call-Step :
      (id params : Value) (s : Session W)
      → s.initialized ≡ true
      → Step runner policy R s (handle_call serde debug_str runner policy id params s).0
  unfolding handle_call
  handle_call-Step id params s i = elim (Option-cases (get_field (text "name") params >>= as_str)) [
    | inl e ↦ rw (e, handle_call) quiet
    | inr (name, e) ↦ rw (e, handle_call) (call_named-Step id name _ s i)
  ]

  guarded-Step :
      (id : Value) (s : Session W) (a : Answer W)
      → (s.initialized ≡ true → Step runner policy R s a.0)
      → Step runner policy R s (if not s.initialized then (s, not_initialized serde id) else a).0
  guarded-Step id s a h =
      if-cases {A = Answer W} (λ a. Step runner policy R s a.0) (not s.initialized) (λ _. quiet)
        (λ e. h (ground arith))

  handle_request-Step :
      (id : Value) (method : Text) (params : Value) (s : Session W)
      → Step runner policy R s (handle_request serde debug_str runner policy id method params s).0
  unfolding handle_request handle_initialize text text_eq
  handle_request-Step id method params s =
      let P : Answer W → Type 0 = λ a. Step runner policy R s a.0 in
      if-cases P (text_eq method (text "initialize"))
        (λ _. noted _ _ (record {
          no_call = λ e. absurd (ground arith);
          unstamped =
              insert_all-IsUnstamped _ [] ((refl, refl), ((refl, refl), tt)) empty-IsUnstamped;
        }))
        (λ _.
          if-cases P (text_eq method (text "ping")) (λ _. quiet)
            (λ _.
              if-cases P (text_eq method (text "tools/list"))
                (λ _. guarded-Step id s _ (λ _. handle_list-Step id params s))
                (λ _.
                  if-cases P (text_eq method (text "tools/call"))
                    (λ _. guarded-Step id s _ (handle_call-Step id params s)) (λ _. quiet))))

module _ {W : Type 0} (serde : Serde) (debug_str : Text → Text) (runner : Runner W)
    (policy : Policy) where
  handle_incoming-Step :
      (m : Incoming) (s : Session W)
      → Step runner policy
          ((params : Value) × (m ≡ notification (text "notifications/initialized") params))
          s
          (handle_incoming serde debug_str runner policy m s).0
  unfolding handle_incoming
  handle_incoming-Step (parse_error detail) s = quiet
  handle_incoming-Step (malformed detail) s = quiet
  handle_incoming-Step (notification method params) s =
      if-cases (Step runner policy _ s) (text_eq method (text "notifications/initialized"))
        (λ e. ready (
          params,
          ap (λ m. notification m params)
              ((text_eq_iff method (text "notifications/initialized")).0 e),
        ))
        (λ _. quiet)
  handle_incoming-Step (request id method params) s =
      handle_request-Step serde debug_str runner policy _ id method params s

  Step-map :
      {R Q : Type 0} {s u : Session W}
      → (R → Q)
      → Step runner policy R s u
      → Step runner policy Q s u
  Step-map f quiet = quiet
  Step-map f (ready r) = ready (f r)
  Step-map f (noted event fs n) = noted event fs n
  Step-map f (refused name word fs i d k) = refused name word fs i d k
  Step-map f (ran name arguments g fs i k d r) = ran name arguments g fs i k d r

  -- Each input line is one step: it leaves the session, initializes it, notes something that is no
  -- call, notes a refused call under the word that the policy calls for, or runs a known tool with
  -- the grant that `decide` gives and notes that. Only the notification
  -- `notifications/initialized` initializes a session, and calls are counted, noted and run only
  -- in an initialized one. No field of what is noted is named like the time or the event of a
  -- line.
  pub handle_line-Step :
      (line : Text) (s : Session W)
      → Step runner policy
          (IsReadyLine serde line)
          s
          (handle_line serde debug_str runner policy line s).0
  unfolding handle_line
  handle_line-Step line s =
      if-cases {A = Session W × Option Text}
        (λ a. Step runner policy (IsReadyLine serde line) s a.0) (is_blank line) (λ _. quiet)
        (λ e. Step-map (λ q. (e, q)) (handle_incoming-Step (parse_line serde line) s))

  pub handle_lines-Steps :
      (lines : List Text) (s : Session W)
      → Steps runner policy serde s (handle_lines serde debug_str runner policy lines s).0
  unfolding handle_lines
  handle_lines-Steps [] s = done s
  handle_lines-Steps (line ∷ lines) s =
      let s' = (handle_line serde debug_str runner policy line s).0 in
      first line s s' _ (handle_line-Step line s) (handle_lines-Steps lines s')
