-- ===== src/Server/Stamped.antt =====
-- The audit lines of a session of server.rs: the fields of an entry never hide its time or event.
use toolcage.Prelude.{
  ℕ, ◌≡◌, refl, Bytes, Text, text, text_eq, List, [], ◌∷◌, All, All-append, some,
}
use toolcage.TreeMap.{get}
use toolcage.Json.{Value, string, Serde}
use toolcage.Runner.{Runner}
use toolcage.Policy.{Policy}
use toolcage.Audit.Clock.{rfc3339_utc}
use toolcage.Audit.Trail.{log_object}
use toolcage.Audit.Logged.{log_object-stamps, log_object-field}
use toolcage.Server.{Session, Entry, new_paginated}
use toolcage.Server.Handlers.{handle_lines, finish}
use toolcage.Server.Stamps.{IsUnstamped, empty-IsUnstamped, insert_all-IsUnstamped}
use toolcage.Server.Steps.{
  Step, quiet, ready, noted, refused, ran, Steps, done, first, handle_lines-Steps,
}

abbrev pub AreUnstamped : List Entry → Type 0
AreUnstamped es = All (λ e. IsUnstamped e.fields) es

-- The line that is written at a time has that time, the event, and every field.
pub record IsStamped (now : ℕ) (e : Entry) : Type 0 where
  pub ts_is : get (text "ts") (log_object now e.event e.fields) ≡ some (string (rfc3339_utc now))
  pub event_is : get (text "event") (log_object now e.event e.fields) ≡ some (string e.event)
  pub fields_kept :
      (k : Text) (v : Value)
      → get k e.fields ≡ some v
      → get k (log_object now e.event e.fields) ≡ some v

pub IsStamped-of_IsUnstamped : (now : ℕ) (e : Entry) → IsUnstamped e.fields → IsStamped now e
IsStamped-of_IsUnstamped now e u =
    let (a, b) = log_object-stamps now e.event e.fields u.sorted u.no_ts u.no_event in
    record {
      ts_is = a;
      event_is = b;
      fields_kept = λ k v h. log_object-field now e.event e.fields k v u.sorted h;
    }

pub All-IsStamped : (now : ℕ) (es : List Entry) → AreUnstamped es → All (IsStamped now) es
All-IsStamped now [] h = tt
All-IsStamped now (e ∷ es) (u, h) = (IsStamped-of_IsUnstamped now e u, All-IsStamped now es h)

module _ {W : Type 0} (serde : Serde) (runner : Runner W) (policy : Policy) where
  Step-AreUnstamped :
      {R : Type 0} (s u : Session W)
      → Step runner policy R s u
      → AreUnstamped s.audit
      → AreUnstamped u.audit
  Step-AreUnstamped s u quiet h = h
  Step-AreUnstamped s u (ready r) h = h
  Step-AreUnstamped s u (noted event fs n) h = All-append _ s.audit _ h (n.unstamped, tt)
  Step-AreUnstamped s u (refused name word fs i r k) h = All-append _ s.audit _ h (k.unstamped, tt)
  Step-AreUnstamped s u (ran name arguments g fs i k d r) h =
      All-append _ s.audit _ h (r.unstamped, tt)

  Steps-AreUnstamped :
      (s u : Session W)
      → Steps runner policy serde s u
      → AreUnstamped s.audit
      → AreUnstamped u.audit
  Steps-AreUnstamped s u (done _) h = h
  Steps-AreUnstamped s u (first line _ t _ p ps) h =
      Steps-AreUnstamped t u ps (Step-AreUnstamped s t p h)

-- All that a session hands to the auditor, to its end.
pub finish-AreUnstamped :
    {W : Type 0} (serde : Serde) (debug_str : Text → Text) (runner : Runner W) (policy : Policy)
    (page_size : ℕ) (cursor_key : Bytes) (world : W) (lines : List Text) (elapsed : ℕ)
    → AreUnstamped
        (finish elapsed
          (handle_lines serde debug_str runner policy lines
            (new_paginated page_size cursor_key world)).0).audit
unfolding finish text text_eq
finish-AreUnstamped serde debug_str runner policy page_size cursor_key world lines elapsed =
    let s = new_paginated page_size cursor_key world in
    All-append _ _ _
      (Steps-AreUnstamped serde runner policy s _
        (handle_lines-Steps serde debug_str runner policy lines s) tt)
      (insert_all-IsUnstamped _ [] ((refl, refl), ((refl, refl), tt)) empty-IsUnstamped, tt)
