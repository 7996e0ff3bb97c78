-- ===== src/Sandbox/TickerTests.antt =====
-- The ticker thread of sandbox.rs for some rounds, before and after the runner is dropped.
use toolcage.Prelude.{◌+◌, ◌<◌, ◌≡◌, refl, text, false, List, [], ◌∷◌, ◌++◌, replicate, arith}
use toolcage.Policy.Tests.{reading}
use toolcage.Sandbox.Guest.{store_setup, wasi_start}
use toolcage.Sandbox.Ticker.{Ticker, Round, drop_runner, tick_while, tick_while-late}

abbrev first_round : Round
first_round = record { stop = false; slept = 100 }

abbrev later_rounds : List Round
later_rounds = replicate 7 (record { stop = false; slept = 101 }) ++ drop_runner (first_round ∷ [])

abbrev started_ticker : Ticker
started_ticker = record { epoch = 3; woken = 40 }

tick_while_run :
    tick_while (first_round ∷ later_rounds) started_ticker ≡ record { epoch = 11; woken = 847 }
unfolding tick_while drop_runner
tick_while_run = refl

tick_while-late_example :
    130 + reading.limits.timeout_ms < (tick_while (first_round ∷ later_rounds) started_ticker).woken
unfolding tick_while drop_runner store_setup
tick_while-late_example =
    tick_while-late reading (wasi_start reading (text "call")) first_round later_rounds
      started_ticker 130 (ground arith) (omega arith) (omega arith)
