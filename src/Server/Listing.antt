-- ===== src/Server/Listing.antt =====
-- A client that lists the tools page by page, against `handle_list` of server.rs.
use toolcage.Prelude.{
  ℕ, zero, suc, ◌+◌, ◌-◌, ◌^◌, ◌<◌, ◌≡◌, refl, sym, ap, subst, ◌∙◌, Text, text, text_eq, Bool, true,
  false, List, [], ◌∷◌, ◌++◌, map, Option, none, some, length, length-map, take_all, Result, ok,
  err, Bool-cases, inl, inr, ltb, ◌==◌, not, if◌then◌else◌, arith,
}
use mathlib.Core.List.{append-nil, map-append}
use toolcage.TreeMap.{get, insert, insert_all}
use toolcage.Json.{Value, string, array, to_items, json, get_field, Serde}
use toolcage.Rpc.{result_line}
use toolcage.Runner.{ToolDef, Runner}
use toolcage.Policy.{Policy}
use toolcage.Paginate.Cursor.{Page, Paginator, page, new_paginator}
use toolcage.Paginate.Walk.{slice, gather, walk-gather, IsWalk, finish, follow, walk-IsWalk}
use toolcage.Server.{Session}
use toolcage.Server.Handlers.{
  visible_tool_defs, session_paginator, cursor_param, list_result, answer_page, handle_list,
  handle_request,
}

-- The parameters of a `tools/list` request.
unfoldable pub list_params : Option Text → Value
list_params none = json []
list_params (some c) = json ((text "cursor", string c) ∷ [])

module _ {W : Type 0} (serde : Serde) (debug_str : Text → Text) (runner : Runner W)
    (policy : Policy) where
  -- What a client gets that sends `tools/list` with a cursor, and again with the `nextCursor` of
  -- each result while there is one: the tools of all the results, in order.
  pub data Fetches : Value → Session W → Option Text → List Value → Type 0 where
    last :
        (id : Value) (s t : Session W) (cursor : Option Text) (r : Value) (tools : List Value)
        → handle_request serde debug_str runner policy id (text "tools/list") (list_params cursor) s
          ≡ (t, result_line serde id r)
        → get_field (text "tools") r ≡ some (array (to_items tools))
        → get_field (text "nextCursor") r ≡ none
        → Fetches id s cursor tools
    more :
        (id : Value) (s t : Session W) (cursor : Option Text) (r : Value) (tools rest : List Value)
        (c : Text)
        → handle_request serde debug_str runner policy id (text "tools/list") (list_params cursor) s
          ≡ (t, result_line serde id r)
        → get_field (text "tools") r ≡ some (array (to_items tools))
        → get_field (text "nextCursor") r ≡ some (string c)
        → Fetches id t (some c) rest
        → Fetches id s cursor (tools ++ rest)

module _ (tools : List ToolDef) where
  next_of : Option Text → Option Value
  next_of none = none
  next_of (some c) = some (string c)

  list_result-tools :
      (start end : ℕ) (next : Option Text)
      → let g : Page = record { start = start; end = end; next_cursor = next } in
        get_field (text "tools") (list_result tools g)
        ≡ some (array (to_items (map (λ t. t.raw) (slice g tools))))
  unfolding text list_result get_field get insert text_eq toolcage.Prelude.cmp
  list_result-tools start end none = refl
  list_result-tools start end (some c) = refl

  list_result-next :
      (start end : ℕ) (next : Option Text)
      → let g : Page = record { start = start; end = end; next_cursor = next } in
        get_field (text "nextCursor") (list_result tools g) ≡ next_of next
  unfolding text list_result get_field get insert text_eq toolcage.Prelude.cmp next_of
  list_result-next start end none = refl
  list_result-next start end (some c) = refl

list_params-cursor :
    (cursor : Option Text)
    → cursor_param (get_field (text "cursor") (list_params cursor)) ≡ ok cursor
unfolding text list_params get_field get insert insert_all json cursor_param text_eq
list_params-cursor none = refl
list_params-cursor (some c) = refl

passes : {A : Type 0} (b : Bool) (x y : A) → b ≡ true → (if not b then x else y) ≡ y
passes b x y e = rw e refl

module _ {W : Type 0} (serde : Serde) (debug_str : Text → Text) (runner : Runner W)
    (policy : Policy) where
  handle_list-page :
      (id : Value) (s : Session W) (cursor : Option Text)
      → handle_list serde debug_str runner policy id (list_params cursor) s
        ≡ answer_page serde debug_str runner policy id s
            (page (session_paginator runner policy s) cursor)
  unfolding handle_list
  handle_list-page id s cursor = rw (list_params-cursor cursor, handle_list) refl

  handle_request-page :
      (id : Value) (s : Session W) (cursor : Option Text)
      → s.initialized ≡ true
      → handle_request serde debug_str runner policy id (text "tools/list") (list_params cursor) s
        ≡ answer_page serde debug_str runner policy id s
            (page (session_paginator runner policy s) cursor)
  unfolding handle_request text text_eq
  handle_request-page id s cursor i = passes s.initialized _ _ i ∙ handle_list-page id s cursor

  tools_of : List ToolDef → List Value
  tools_of tools = map (λ t. t.raw) tools

  after : Value → Session W → Page → Session W
  after id s g = (answer_page serde debug_str runner policy id s (ok g)).0

  last_page :
      (id : Value) (s : Session W) (cursor : Option Text) (g : Page)
      → s.initialized ≡ true
      → page (session_paginator runner policy s) cursor ≡ ok g
      → g.next_cursor ≡ none
      → Fetches serde debug_str runner policy id s cursor
          (tools_of (slice g (visible_tool_defs runner policy)))
  unfolding tools_of answer_page next_of after
  last_page id s cursor g i e n =
      let tools = visible_tool_defs runner policy in
      last id s (after id s g) cursor (list_result tools g) _
        (handle_request-page id s cursor i ∙ ap (answer_page serde debug_str runner policy id s) e)
        (list_result-tools tools g.start g.end g.next_cursor)
        (list_result-next tools g.start g.end g.next_cursor ∙ ap (next_of tools) n)

  more_pages :
      (id : Value) (s : Session W) (cursor : Option Text) (g : Page) (c : Text) (rest : List Value)
      → s.initialized ≡ true
      → page (session_paginator runner policy s) cursor ≡ ok g
      → g.next_cursor ≡ some c
      → Fetches serde debug_str runner policy id (after id s g) (some c) rest
      → Fetches serde debug_str runner policy id s cursor
          (tools_of (slice g (visible_tool_defs runner policy)) ++ rest)
  unfolding tools_of answer_page next_of after
  more_pages id s cursor g c rest i e n f =
      let tools = visible_tool_defs runner policy in
      more id s (after id s g) cursor (list_result tools g) _ rest c
        (handle_request-page id s cursor i ∙ ap (answer_page serde debug_str runner policy id s) e)
        (list_result-tools tools g.start g.end g.next_cursor)
        (list_result-next tools g.start g.end g.next_cursor ∙ ap (next_of tools) n) f

  same_paginator :
      (id : Value) (s : Session W) (g : Page)
      → session_paginator runner policy (after id s g) ≡ session_paginator runner policy s
  unfolding after answer_page session_paginator
  same_paginator id s g = refl

  same_phase : (id : Value) (s : Session W) (g : Page) → (after id s g).initialized ≡ s.initialized
  unfolding after answer_page
  same_phase id s g = refl

  walk-Fetches :
      (p : Paginator) (id : Value) (s : Session W) (cursor : Option Text) (gs : List Page)
      → s.initialized ≡ true
      → session_paginator runner policy s ≡ p
      → IsWalk p cursor gs
      → Fetches serde debug_str runner policy id s cursor
          (tools_of (gather gs (visible_tool_defs runner policy)))
  unfolding gather tools_of
  walk-Fetches p id s cursor gs i same (finish _ g e n) =
      subst (λ ts. Fetches serde debug_str runner policy id s cursor (tools_of ts))
        (sym (append-nil (slice g (visible_tool_defs runner policy))))
        (last_page id s cursor g i (ap (λ p. page p cursor) same ∙ e) n)
  walk-Fetches p id s cursor gs i same (follow _ g c gs' e n w) =
      let tools = visible_tool_defs runner policy in
      subst (Fetches serde debug_str runner policy id s cursor)
        (sym (map-append _ (slice g tools) (gather gs' tools)))
        (more_pages id s cursor g c _ i (ap (λ p. page p cursor) same ∙ e) n (
          walk-Fetches p id (after id s g) (some c) gs' (same_phase id s g ∙ i)
            (same_paginator id s g ∙ same) w))

  unpaged :
      (id : Value) (s : Session W)
      → s.initialized ≡ true
      → s.page_size ≡ 0
      → Fetches serde debug_str runner policy id s none (tools_of (visible_tool_defs runner policy))
  unfolding page session_paginator new_paginator slice
  unpaged id s i e =
      let tools = visible_tool_defs runner policy in
      let total = length (map (λ t. t.name) tools) in
      let size : total ≡ length tools = length-map _ tools in
      let g : Page = record { start = 0; end = total; next_cursor = none } in
      subst (λ ts. Fetches serde debug_str runner policy id s none (tools_of ts))
        {x = slice g tools} (take_all (total - 0) tools (omega (arith, size)))
        (last_page id s none g i (ground (arith, e)) refl)

  -- In an initialized session, a client that asks for `tools/list` and follows each `nextCursor`
  -- gets, after finitely many requests, exactly the visible tools, each as often and in the order
  -- in which the runner's probe has them, whatever the page size; none of its cursors is refused.
  -- There are fewer than 2^32 visible tools.
  pub tools_list_complete :
      (id : Value) (s : Session W)
      → s.initialized ≡ true
      → length (visible_tool_defs runner policy) < 2 ^ 32
      → Fetches serde debug_str runner policy id s none
          (map (λ t. t.raw) (visible_tool_defs runner policy))
  unfolding tools_of session_paginator
  tools_list_complete id s i fits = elim (Bool-cases (s.page_size == 0)) [
    | inl e ↦ unpaged id s i (ground arith)
    | inr e ↦
        let tools = visible_tool_defs runner policy in
        let names = map (λ t. t.name) tools in
        let size : length names ≡ length tools = length-map _ tools in
        let (gs, walked, gathered) =
          walk-gather s.cursor_key names s.page_size tools (ground arith) (omega arith)
            (omega arith) in
        subst (λ ts. Fetches serde debug_str runner policy id s none (tools_of ts)) gathered
          (walk-Fetches _ id s none gs i refl (walk-IsWalk _ _ none gs walked))
  ]
