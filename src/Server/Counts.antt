-- ===== src/Server/Counts.antt =====
-- The counter and the audit entries of the `Session` of server.rs over a whole session.
use mathlib.Core.List.{append-nil, append_assoc}
use toolcage.Prelude.{
  ℕ, ◌+◌, ◌≤◌, ◌≡◌, refl, sym, ap, ◌∙◌, subst, Bytes, Text, text, text_eq, text_eq_ne, text_eq_refl,
  Bool, true, false, List, [], ◌∷◌, ◌++◌, length, length-append, some, u64, Bool-cases, inl, inr,
  if◌then◌else◌, arith,
}
use toolcage.TreeMap.{get, insert, insert_all}
use toolcage.Json.{nat, Serde}
use toolcage.Runner.{Runner}
use toolcage.Policy.{Policy}
use toolcage.Server.{Session, Entry, new_paginated}
use toolcage.Server.Handlers.{handle_lines, finish}
use toolcage.Server.Steps.{
  Step, quiet, ready, noted, refused, ran, Steps, done, first, handle_lines-Steps,
}

-- The number of entries for calls.
unfoldable pub calls_noted : List Entry → ℕ
calls_noted [] = 0
calls_noted (e ∷ es) = (if text_eq e.event (text "call") then 1 else 0) + calls_noted es

calls_noted-append : (xs ys : List Entry) → calls_noted (xs ++ ys) ≡ calls_noted xs + calls_noted ys
unfolding calls_noted
calls_noted-append [] ys = omega arith
calls_noted-append (x ∷ xs) ys = omega (arith, calls_noted-append xs ys)

pub IsCounted : {W : Type 0} → Session W → Type 0
IsCounted s = s.calls ≡ u64 (calls_noted s.audit)

count_more :
    (calls : ℕ) (es : List Entry) (e : Entry)
    → text_eq e.event (text "call") ≡ true
    → calls ≡ u64 (calls_noted es)
    → u64 (calls + 1) ≡ u64 (calls_noted (es ++ e ∷ []))
unfolding calls_noted
count_more calls es e h c = ground (arith, calls_noted-append es (e ∷ []))

count_same :
    (calls : ℕ) (es : List Entry) (e : Entry)
    → text_eq e.event (text "call") ≡ false
    → calls ≡ u64 (calls_noted es)
    → calls ≡ u64 (calls_noted (es ++ e ∷ []))
unfolding calls_noted
count_same calls es e h c = ground (arith, calls_noted-append es (e ∷ []))

module _ {W : Type 0} (serde : Serde) (runner : Runner W) (policy : Policy) where
  Step-IsCounted :
      {R : Type 0} (s u : Session W) → Step runner policy R s u → IsCounted s → IsCounted u
  unfolding IsCounted
  Step-IsCounted s u quiet c = c
  Step-IsCounted s u (ready r) c = c
  Step-IsCounted s u (noted event fs n) c =
      count_same s.calls s.audit _ (text_eq_ne event (text "call") n.no_call) c
  Step-IsCounted s u (refused name word fs i r k) c =
      count_more s.calls s.audit _ (text_eq_refl (text "call")) c
  Step-IsCounted s u (ran name arguments g fs i k d r) c =
      count_more s.calls s.audit _ (text_eq_refl (text "call")) c

  Steps-IsCounted : (s u : Session W) → Steps runner policy serde s u → IsCounted s → IsCounted u
  Steps-IsCounted s u (done _) c = c
  Steps-IsCounted s u (first line _ t _ p ps) c = Steps-IsCounted t u ps (Step-IsCounted s t p c)

  Step-audit :
      {R : Type 0} (s u : Session W)
      → Step runner policy R s u
      → (es : List Entry) × (u.audit ≡ s.audit ++ es) × (length es ≤ 1)
  Step-audit s u quiet = ([], sym (append-nil _), omega arith)
  Step-audit s u (ready r) = ([], sym (append-nil _), omega arith)
  Step-audit s u (noted event fs n) = (_ ∷ [], refl, omega arith)
  Step-audit s u (refused name word fs i r k) = (_ ∷ [], refl, omega arith)
  Step-audit s u (ran name arguments g fs i k d r) = (_ ∷ [], refl, omega arith)

  Steps-audit :
      (s u : Session W)
      → Steps runner policy serde s u
      → (es : List Entry) × (u.audit ≡ s.audit ++ es)
  Steps-audit s u (done _) = ([], sym (append-nil _))
  Steps-audit s u (first line _ t _ p ps) =
      let (es, e, le) = Step-audit s t p in
      let (fs, f) = Steps-audit t u ps in
      (es ++ fs, f ∙ ap (λ a. a ++ fs) e ∙ append_assoc s.audit es fs)

module _ {W : Type 0} (serde : Serde) (debug_str : Text → Text) (runner : Runner W)
    (policy : Policy) where
  -- Whatever lines a new session is sent, its counter is the number of calls in its audit entries,
  -- up to the wrap-around of 64 bits, and the entry of `finish` gives that number.
  pub calls-counted :
      (page_size : ℕ) (cursor_key : Bytes) (world : W) (lines : List Text) (elapsed : ℕ)
      → let s =
          (handle_lines serde debug_str runner policy lines
            (new_paginated page_size cursor_key world)).0 in
        let total = u64 (calls_noted s.audit) in
        (s.calls ≡ total)
        × ((fs : _) × ((finish elapsed s).audit
              ≡ s.audit ++ record { event = text "session_end"; fields = fs } ∷ [])
            × (get (text "calls") fs ≡ some (nat total)))
  unfolding finish IsCounted calls_noted text get insert insert_all text_eq toolcage.Prelude.cmp
  calls-counted page_size cursor_key world lines elapsed =
      let s =
        (handle_lines serde debug_str runner policy lines
          (new_paginated page_size cursor_key world)).0 in
      let c : IsCounted s =
        Steps-IsCounted serde runner policy _ s
          (handle_lines-Steps serde debug_str runner policy lines
            (new_paginated page_size cursor_key world))
          refl in
      (c, (_, refl, ap (λ n. some (nat n)) c))

  -- The audit trail only grows: what has been noted stays, in its order, whatever is sent next.
  pub audit-kept :
      (lines : List Text) (s : Session W)
      → (es : List Entry) × ((handle_lines serde debug_str runner policy lines s).0.audit
          ≡ s.audit ++ es)
  audit-kept lines s =
      Steps-audit serde runner policy s _ (handle_lines-Steps serde debug_str runner policy lines s)
