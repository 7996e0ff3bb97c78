-- ===== src/Main/Trail.antt =====
-- The audit trail of a session that main.rs serves.
use toolcage.Runner.{ProbeResult}
use toolcage.Server.Stamps.{IsUnstamped, empty-IsUnstamped, insert_all-IsUnstamped}
use toolcage.Server.Stamped.{IsStamped, All-IsStamped, finish-AreUnstamped}
use toolcage.Prelude.{text_eq, All, ℕ, ◌≡◌, refl, ap, Text, text, List, [], ◌∷◌, ◌++◌, some, u64}
use toolcage.TreeMap.{get}
use toolcage.Json.{nat}
use toolcage.Policy.{Policy}
use toolcage.Server.{Entry, new_paginated}
use toolcage.Server.Handlers.{handle_lines, finish}
use toolcage.Server.Counts.{calls_noted, calls-counted}
use toolcage.Sandbox.Guest.{elapsed_ms}
use toolcage.Sandbox.Calls.{WasmRunner, wasm_runner}
use toolcage.Main.{System}
use toolcage.Main.Flags.{RunFlags}
use toolcage.Main.Commands.{
  cursor_key_for, hash_or_unreadable, start_fields, probe_fields, start_entry, probe_entry,
}

-- The audit trail of a session: its start, the probe, what is noted of the lines, and the end, with
-- the number of the calls.
pub record IsTrail (audit : List Entry) : Type 0 where
  pub start : Entry
  pub probe : Entry
  pub noted_entries : List Entry
  pub end : Entry
  pub audit_is : audit ≡ start ∷ probe ∷ (noted_entries ++ end ∷ [])
  pub start_is : start.event ≡ text "session_start"
  pub probe_is : probe.event ≡ text "probe"
  pub end_is : end.event ≡ text "session_end"
  pub stamped : (now : ℕ) → All (IsStamped now) audit
  pub calls_are : get (text "calls") end.fields ≡ some (nat (u64 (calls_noted noted_entries)))

start_entry-IsUnstamped :
    {W : Type 0} (sys : System W) (f : RunFlags) (path sha : Text) (w : W)
    → IsUnstamped (start_entry sys f path sha w).fields
unfolding start_entry start_fields text text_eq
start_entry-IsUnstamped sys f path sha w =
    insert_all-IsUnstamped _ []
      (
        (refl, refl),
        ((refl, refl), ((refl, refl), ((refl, refl), ((refl, refl), ((refl, refl), tt))))),
      )
      empty-IsUnstamped

probe_entry-IsUnstamped : (probe : ProbeResult) → IsUnstamped (probe_entry probe).fields
unfolding probe_entry probe_fields text text_eq
probe_entry-IsUnstamped probe =
    insert_all-IsUnstamped _ []
      (
        (refl, refl),
        ((refl, refl), ((refl, refl), ((refl, refl), ((refl, refl), ((refl, refl), tt))))),
      )
      empty-IsUnstamped

module _ {W : Type 0} (sys : System W) (f : RunFlags) (path : Text) (p : Policy)
    (r : WasmRunner sys.host) (u : W) (lines : List Text) where
  pub served-IsTrail :
      let sha = hash_or_unreadable (sys.read path u) in
      let s =
        (handle_lines sys.serde sys.debug_str
          (wasm_runner sys.host sys.serde r)
          p
          lines
          (new_paginated f.page_size (cursor_key_for sys f.page_size sha u) u)).0 in
      IsTrail (
        start_entry sys f path sha u
        ∷ probe_entry r.probe
        ∷ (finish (elapsed_ms sys.host (sys.host.now u) s.world) s).audit)
  unfolding start_entry probe_entry
  served-IsTrail =
      let sha = hash_or_unreadable (sys.read path u) in
      let key = cursor_key_for sys f.page_size sha u in
      let runner = wasm_runner sys.host sys.serde r in
      let s =
        (handle_lines sys.serde sys.debug_str runner p lines (new_paginated f.page_size key u)).0 in
      let elapsed = elapsed_ms sys.host (sys.host.now u) s.world in
      let start = start_entry sys f path sha u in
      let probe = probe_entry r.probe in
      let (fs, ends, calls) =
        (calls-counted sys.serde sys.debug_str runner p f.page_size key u lines elapsed).1 in
      record {
        start = start;
        probe = probe;
        noted_entries = s.audit;
        end = record { event = text "session_end"; fields = fs };
        audit_is = ap (λ es. start ∷ probe ∷ es) ends;
        start_is = refl;
        probe_is = refl;
        end_is = refl;
        stamped = λ now. All-IsStamped now (start ∷ probe ∷ (finish elapsed s).audit) (
          start_entry-IsUnstamped sys f path sha u,
          (
            probe_entry-IsUnstamped r.probe,
            finish-AreUnstamped sys.serde sys.debug_str runner p f.page_size key u lines elapsed,
          ),
        );
        calls_are = calls;
      }
