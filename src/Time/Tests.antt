-- ===== src/Time/Tests.antt =====
-- The theorems on sleeps, intervals and timeouts, each at an input that meets its hypotheses.
use zincio.Prelude.{ℕ, ◌+◌, ◌≡◌, ◌⊎◌, refl, true, false, some, []}
use zincio.Executor.Join.{ready, pending}
use zincio.Timer.Wheel.{new}
use zincio.Timer.Clock.{Timer}
use zincio.Timer.Tests.VecSlab.{VecSlab, vec_slab}
use zincio.Time.Sleep.{sleep_until, poll}
use zincio.Time.Sleep.Contract
use zincio.Time.Sleep.Contract.{Honest, Settled}
use zincio.Time.Interval.{Interval, Clock, skip, catch_up}
use zincio.Time.Interval.Cadence
use zincio.Time.Timeout.{Timeout, Inner, Raced, IsWhole, Race, timeout_error}
use zincio.Time.Timeout as Timing

abbrev at_zero : Timer VecSlab
at_zero = record { wheel = new; instant = 0 }

poll-Honest_example :
    Honest (sleep_until 5000000) at_zero 1000000 7 (poll (sleep_until 5000000) at_zero 1000000 7)
unfolding sleep_until
poll-Honest_example = Contract.poll-Honest (sleep_until 5000000) at_zero 1000000 7 refl

poll-Settled_example : Settled (sleep_until 5000000) (poll (sleep_until 5000000) at_zero 1000000 7)
unfolding sleep_until
poll-Settled_example = Contract.poll-Settled (sleep_until 5000000) at_zero 1000000 7 refl

-- Three periods of 10 are missed in part.
abbrev late_skip : Interval
late_skip = record { period = 10; next_deadline = some 100; missed_tick_behavior = skip }

abbrev late_catch_up : Interval
late_catch_up = record { period = 10; next_deadline = some 100; missed_tick_behavior = catch_up }

abbrev at_125 : Clock
at_125 = record { start = 125; measured = 126; slept = 127 }

-- A future that is never ready.
abbrev never : ℕ → Timer VecSlab → ℕ → ℕ → Inner VecSlab ℕ ℕ
never polls t now waker = record { future = polls + 1; timer = t; answer = pending; woken = [] }

abbrev racing : Timeout ℕ
racing = record {
  future = 0;
  sleep = record (sleep_until 5000000) { deadline = 5000000 };
  timed_out = false;
}

poll_races_example :
    IsWhole never (Timing.poll never racing at_zero 1000000 7).timeout
    × ((Timing.poll never racing at_zero 1000000 7).timeout.sleep.deadline ≡ racing.sleep.deadline)
    × (((racing.timed_out ≡ true)
          × (Timing.poll never racing at_zero 1000000 7 ≡ record {
            timeout = racing;
            timer = at_zero;
            answer = ready timeout_error;
            woken = [];
          }))
        ⊎ ((racing.timed_out ≡ false)
            × Race never racing
                (never racing.future at_zero 1000000 7)
                1000000
                7
                (Timing.poll never racing at_zero 1000000 7)))
unfolding sleep_until
poll_races_example = Timing.poll_races never racing at_zero 1000000 7 refl
