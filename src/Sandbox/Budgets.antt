-- ===== src/Sandbox/Budgets.antt =====
-- The budgets that sandbox.rs computes from a grant: no one overflows, and they nest.
use toolcage.Prelude.{◌+◌, ◌*◌, ◌^◌, ◌≤◌, ◌<◌, ◌≡◌, refl, Bytes, arith}
use toolcage.Policy.{Grant}
use toolcage.Policy.Ranges.{LimitsInRange}
use toolcage.Sandbox.{epoch_tick_ms, join_grace_ms, output_slack_bytes, StoreSetup}
use toolcage.Sandbox.Guest.{stdout_cap_of, store_setup, wasi_start, join_budget}
use toolcage.Sandbox.Calls.{output_max_bytes}

pub record IsBudgeted (g : Grant) (s : StoreSetup) : Type 0 where
  -- The epoch deadline is at least a tick after the time limit, and at most two.
  pub deadline_late : g.limits.timeout_ms + epoch_tick_ms < s.epoch_deadline * epoch_tick_ms
  pub deadline_early : s.epoch_deadline * epoch_tick_ms ≤ g.limits.timeout_ms + 2 * epoch_tick_ms
  -- The client is answered after the grace period, and not before the deadline.
  pub join_is : join_budget g ≡ g.limits.timeout_ms + 2 * epoch_tick_ms + join_grace_ms
  pub join_late : s.epoch_deadline * epoch_tick_ms + join_grace_ms ≤ join_budget g
  pub fuel_is : s.fuel ≡ g.limits.fuel
  pub memory_is : s.memory_size ≡ g.limits.memory_max_mb * (1024 * 1024)
  pub memory_fits : s.memory_size ≤ 2 ^ 32
  pub output_is : output_max_bytes g ≡ g.limits.output_max_kb * 1024
  -- A guest can write more than its budget before the pipe refuses, so that the excess is seen.
  pub cap_is : s.wasi.stdout_cap ≡ output_max_bytes g + output_slack_bytes
  pub cap_fits : s.wasi.stdout_cap < 2 ^ 31

-- For limits in the range that the policy accepts, no budget that is computed from them wraps or
-- saturates: the epoch deadline is more than one tick and at most two after the time limit, and the
-- client's wait ends at least the grace period after the deadline; the memory is at most 4 GiB; and
-- the pipe for the standard output has room for exactly the slack beyond the output budget.
pub store_setup-IsBudgeted :
    (g : Grant) (stdin_bytes : Bytes)
    → LimitsInRange g.limits
    → IsBudgeted g (store_setup g (wasi_start g stdin_bytes))
unfolding store_setup wasi_start stdout_cap_of join_budget
store_setup-IsBudgeted g stdin_bytes range =
    let (timeout_low, timeout_high) = range.timeout_in in
    let (memory_low, memory_high) = range.memory_in in
    let (output_low, output_high) = range.output_in in
    record {
      deadline_late = omega arith;
      deadline_early = omega arith;
      join_is = omega arith;
      join_late = omega arith;
      fuel_is = refl;
      memory_is = omega arith;
      memory_fits = omega arith;
      output_is = omega arith;
      cap_is = omega arith;
      cap_fits = omega arith;
    }
