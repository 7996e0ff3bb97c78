-- ===== src/Server/Handshake.antt =====
-- When the `Session` of server.rs is initialized, and what it does before.
use toolcage.Prelude.{
  ◌≡◌, ◌⊎◌, ◌↔◌, inl, inr, refl, sym, ◌∙◌, Text, text, text_eq_refl, true, false, List, [], ◌∷◌,
  All, arith,
}
use toolcage.Json.{Serde}
use toolcage.Runner.{Runner}
use toolcage.Policy.{Policy}
use toolcage.Server.{Session}
use toolcage.Server.Handlers.{handle_incoming, handle_line, handle_lines}
use toolcage.Server.Steps.{Step, quiet, ready, noted, refused, ran, IsReadyLine, handle_line-Step}

module _ {W : Type 0} (runner : Runner W) (p : Policy) {R : Type 0} where
  Step-initialized :
      (s t : Session W)
      → Step runner p R s t
      → (t.initialized ≡ s.initialized) ⊎ (R × (t.initialized ≡ true))
  Step-initialized s t quiet = inl refl
  Step-initialized s t (ready r) = inr (r, refl)
  Step-initialized s t (noted event fs n) = inl refl
  Step-initialized s t (refused name word fs i d k) = inl refl
  Step-initialized s t (ran name arguments g fs i k d z) = inl refl

  Step-idle :
      (s t : Session W)
      → Step runner p R s t
      → (R → ⊥)
      → s.initialized ≡ false
      → (t.initialized ≡ false) × ((t.calls ≡ s.calls) × (t.world ≡ s.world))
  Step-idle s t quiet h e = (e, (refl, refl))
  Step-idle s t (ready r) h e = absurd (h r)
  Step-idle s t (noted event fs n) h e = (e, (refl, refl))
  Step-idle s t (refused name word fs i d k) h e = absurd (ground (arith, i, e))
  Step-idle s t (ran name arguments g fs i k d z) h e = absurd (ground (arith, i, e))

module _ {W : Type 0} (serde : Serde) (debug_str : Text → Text) (runner : Runner W)
    (policy : Policy) where
  ready_now :
      (line : Text) (s : Session W)
      → IsReadyLine serde line
      → (handle_line serde debug_str runner policy line s).0.initialized ≡ true
  unfolding handle_line handle_incoming
  ready_now line s (b, (params, e)) = rw (b, e, text_eq_refl (text "notifications/initialized"))

  -- After a line the session is initialized just when it was before, or the line, not blank, is the
  -- notification `notifications/initialized`.
  pub handle_line-initialized :
      (line : Text) (s : Session W)
      → ((handle_line serde debug_str runner policy line s).0.initialized ≡ true)
        ↔ ((s.initialized ≡ true) ⊎ IsReadyLine serde line)
  handle_line-initialized line s = (
    λ h.
        elim (Step-initialized runner policy s _
          (handle_line-Step serde debug_str runner policy line s)) [
            | inl e ↦ inl (sym e ∙ h)
            | inr (r, e) ↦ inr r
          ],
    λ c. elim c [
      | inr r ↦ ready_now line s r
      | inl i ↦
          elim (Step-initialized runner policy s _
            (handle_line-Step serde debug_str runner policy line s)) [
              | inl e ↦ e ∙ i
              | inr (r, e) ↦ e
            ]
    ],
  )

  -- Before the notification `notifications/initialized` comes, no line initializes the session, has
  -- a call counted or changes the world.
  pub handle_lines-idle :
      (lines : List Text) (s : Session W)
      → All (λ line. IsReadyLine serde line → ⊥) lines
      → s.initialized ≡ false
      → let t = (handle_lines serde debug_str runner policy lines s).0 in
        (t.initialized ≡ false) × ((t.calls ≡ s.calls) × (t.world ≡ s.world))
  unfolding handle_lines
  handle_lines-idle [] s a e = (e, (refl, refl))
  handle_lines-idle (line ∷ lines) s (h, a) e =
      let (i, (c, w)) =
        Step-idle runner policy s _ (handle_line-Step serde debug_str runner policy line s) h e in
      let (j, (d, x)) = handle_lines-idle lines _ a i in (j, (d ∙ c, x ∙ w))
