-- ===== src/Sandbox/Ticker.antt =====
-- The ticker thread that `WasmRunner::new` of sandbox.rs starts, the `Drop` that stops it, and the
-- epoch deadline of `execute` against its ticks. Times are in milliseconds.
use toolcage.Prelude.{
  ℕ, ◌+◌, ◌*◌, ◌≤◌, ◌<◌, ◌≡◌, refl, Bool, true, List, [], ◌∷◌, All, if◌then◌else◌, if-cases, ◌/◌,
  arith,
}
use toolcage.Policy.{Grant}
use toolcage.Sandbox.{epoch_tick_ms, WasiCtx}
use toolcage.Sandbox.Guest.{store_setup}

-- The engine's epoch, and the time at which the thread last woke.
pub record Ticker : Type 0 where
  pub epoch : ℕ
  pub woken : ℕ

-- One round of the loop: what it loads of `epoch_stop`, and how long the sleep takes.
pub record Round : Type 0 where
  pub stop : Bool
  pub slept : ℕ

-- `Drop` for `WasmRunner`, on what the loop loads from then on.
unfoldable pub drop_runner : List Round → List Round
drop_runner [] = []
drop_runner (r ∷ rs) = record r { stop = true } ∷ drop_runner rs

-- The loop of the thread.
unfoldable pub tick_while : List Round → Ticker → Ticker
tick_while [] t = t
tick_while (r ∷ rs) t =
    let rest = tick_while rs (record { epoch = t.epoch + 1; woken = t.woken + r.slept }) in
    if r.stop then t else rest

-- `thread::sleep` takes at least the time that it is given.
abbrev pub SleepsLong : List Round → Type 0
SleepsLong rs = All (λ r. epoch_tick_ms ≤ r.slept) rs

-- The ticks from one state to another are at least a tick's time apart.
record IsSlow (t u : Ticker) : Type 0 where
  pace : u.epoch * epoch_tick_ms + t.woken ≤ u.woken + t.epoch * epoch_tick_ms
  later : t.epoch ≤ u.epoch

tick_while-IsSlow : (rs : List Round) (t : Ticker) → SleepsLong rs → IsSlow t (tick_while rs t)
unfolding tick_while
tick_while-IsSlow [] t h = record { pace = omega arith; later = omega arith }
tick_while-IsSlow (r ∷ rs) t (p, h) =
    if-cases {A = Ticker} (IsSlow t) r.stop
      (λ e. record { pace = omega arith; later = omega arith })
      (λ e.
        let q =
          tick_while-IsSlow rs (record { epoch = t.epoch + 1; woken = t.woken + r.slept }) h in
        record { pace = omega (arith, q.pace); later = omega (arith, q.later) })

-- The thread of a runner that was dropped does nothing more.
tick_while-drop_runner : (rs : List Round) (t : Ticker) → tick_while (drop_runner rs) t ≡ t
unfolding tick_while drop_runner
tick_while-drop_runner [] t = refl
tick_while-drop_runner (r ∷ rs) t = refl

-- The epoch deadline is never early: if an execution sets it before the thread wakes next, then
-- when that many more epochs have gone by, more than the time limit of the grant has passed since.
-- A sleep takes at least the time that it is given.
pub tick_while-late :
    (g : Grant) (ctx : WasiCtx) (r : Round) (rs : List Round) (t : Ticker) (set_at : ℕ)
    → SleepsLong (r ∷ rs)
    → set_at ≤ t.woken + r.slept
    → t.epoch + (store_setup g ctx).epoch_deadline ≤ (tick_while (r ∷ rs) t).epoch
    → set_at + g.limits.timeout_ms < (tick_while (r ∷ rs) t).woken
unfolding tick_while store_setup
tick_while-late g ctx r rs t set_at (p, h) before =
    if-cases {A = Ticker}
      (λ u.
        t.epoch + (g.limits.timeout_ms / 100 + 2) ≤ u.epoch
        → set_at + g.limits.timeout_ms < u.woken)
      r.stop (λ e reached. absurd (omega arith))
      (λ e reached.
        let q =
          tick_while-IsSlow rs (record { epoch = t.epoch + 1; woken = t.woken + r.slept }) h in
        omega (arith, q.pace, q.later))
