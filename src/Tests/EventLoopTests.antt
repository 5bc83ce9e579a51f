-- ===== src/Tests/EventLoopTests.antt =====
-- The event loop's theorems at concrete inputs.
use akoflow.Prelude.{
  ℕ, suc, ◌≤◌, ◌*◌, min, true, false, List, [], ◌∷◌, none, some, ◌≡◌, refl, arith, err, contains,
  ◌==◌, string_eq,
}
use akoflow.Queue.{Category}
use akoflow.EventLoop.{Config, backoff, split_categories}
use akoflow.EventLoop.Dispatcher.{
  Dispatcher, Handler, register, dispatch, run_handler, register_lem, already_registered,
}
use akoflow.EventLoop.Backoff.{backoff_lem}
use akoflow.EventLoop.Pools.{Loop, Event, ticks, wakes, regular_ends, IsBounded, run, run-IsBounded}
use akoflow.EventLoop.Categories.{split_categories_lem}
use akoflow.Tests.QueueSamples.{sample_decode, first, waiting_store}

accepts : Handler
accepts j = none

abbrev one_handler : Dispatcher
one_handler = ("execution.run.requested", accepts) ∷ []

register_lem_example :
    (first.event_type ≡ "execution.run.requested"
      → dispatch one_handler first ≡ run_handler (some accepts) first)
    × ((first.event_type == "execution.run.requested") ≡ false
        → dispatch one_handler first ≡ dispatch [] first)
    × (register one_handler "execution.run.requested" (some accepts) ≡ err already_registered)
register_lem_example =
    register_lem [] one_handler "execution.run.requested" accepts accepts first
      (unfold register in refl)

backoff_lem_example :
    (delay : ℕ → ℕ) × ((n : ℕ) → backoff 2_000_000_000 (suc n) ≡ some (delay n))
    × (delay 0 ≡ 2_000_000_000)
    × ((n : ℕ) → delay (suc n) ≡ min (2 * delay n) (256 * 2_000_000_000))
    × ((n : ℕ) → (2_000_000_000 ≤ delay n) × (delay n ≤ 256 * 2_000_000_000))
backoff_lem_example = backoff_lem 2_000_000_000 (omega arith)

-- A base of 2 ^ 62 nanoseconds wraps around.
backoff_wraps : backoff 4611686018427387904 3 ≡ some 0
unfolding backoff
backoff_wraps = refl

split_categories_lem_example :
    (contains (split_categories []).0 "planning" ≡ false)
    × (contains (split_categories []).1 "planning" ≡ true)
    × (contains (split_categories ("planning" ∷ "infrastructure" ∷ [])).0 "infrastructure" ≡ true)
    × (contains (split_categories ("planning" ∷ "infrastructure" ∷ [])).1 "infrastructure" ≡ false)
split_categories_lem_example =
    split_categories_lem Category.planning "planning" ("infrastructure" ∷ []) "infrastructure"

abbrev worker : Config
worker = record {
  owner = "w1";
  categories = [];
  concurrency = 1;
  infrastructure_concurrency = 1;
  lease_duration = 10;
  poll_interval = 1;
  retry_base_interval = 2;
}

abbrev idle : Loop
idle = record { store = waiting_store; infrastructure = []; regular = [] }

abbrev events : List Event
events = wakes 10 ∷ wakes 11 ∷ regular_ends 0 none 12 ∷ ticks 30 ∷ []

run-IsBounded_example : IsBounded sample_decode worker (run sample_decode worker idle events)
run-IsBounded_example =
    run-IsBounded sample_decode worker events idle
      (record { infrastructure_bounded = omega arith; regular_bounded = omega arith })
