-- ===== src/Time/Interval.antt =====
-- `Interval` (time/interval.rs). An instant and a period are numbers of nanoseconds; `tick` takes
-- what its calls of `Instant::now()` return, in their order, and gives the sleep that it awaits.
pub mod Cadence
use zincio.Prelude.{
  ℕ, zero, suc, ◌+◌, ◌-◌, ◌/◌, Bool, true, false, Option, none, some, leb, ltb, ◌==◌, if◌then◌else◌,
  u64_add, u64_mod,
}
use zincio.Timer.Clock.{nanos_per_milli}
use zincio.Time.Sleep.{Sleep, ZeroBehavior, immediate, yield, new_with_zero_behavior}

pub data MissedTickBehavior : Type 0 where
  skip catch_up : MissedTickBehavior

pub record Interval : Type 0 where
  pub period : ℕ
  pub next_deadline : Option ℕ
  pub missed_tick_behavior : MissedTickBehavior

unfoldable pub new : ℕ → Interval
new period = record { period = period; next_deadline = none; missed_tick_behavior = skip }

unfoldable pub set_missed_tick_behavior : Interval → MissedTickBehavior → Interval
set_missed_tick_behavior i behavior = record i { missed_tick_behavior = behavior }

unfoldable pub reset : Interval → Interval
reset i = record i { next_deadline = none }

-- The instants that the calls of `Instant::now()` return: at the start of `tick`, where the rest of
-- the time is computed, and where the sleep is made.
pub record Clock : Type 0 where
  pub start : ℕ
  pub measured : ℕ
  pub slept : ℕ

-- What a tick returns: the number of ticks, the sleep that it awaits first, the interval.
pub record Tick : Type 0 where
  pub count : ℕ
  pub sleep : Option Sleep
  pub interval : Interval

unfoldable pub base_next : Interval → ℕ → ℕ
base_next i now = elim i.next_deadline [ none ↦ now + i.period | some deadline ↦ deadline ]

-- The loop that passes over the missed ticks, with the rounds that are left until `cnt` is
-- `u64::MAX`.
unfoldable pub skip_loop : ℕ → ℕ → ℕ → ℕ → ℕ
skip_loop zero period now target = target
skip_loop (suc rounds) period now target = elim (leb target now) [
  | true ↦ skip_loop rounds period now (target + period)
  | false ↦ target
]

unfoldable pub skip_target : Interval → ℕ → ℕ
unfolding skip_loop base_next
skip_target i now =
    if leb (base_next i now) now
    then (if i.period == 0 then now else skip_loop (u64_mod - 1) i.period now (base_next i now))
    else base_next i now

-- The sleep until `target`: `Yield` below a millisecond.
unfoldable pub sleep_for : Clock → ℕ → Sleep
unfolding new_with_zero_behavior
sleep_for c target =
    let remaining = target - c.measured in
    if remaining / nanos_per_milli == 0
    then new_with_zero_behavior c.slept remaining yield
    else new_with_zero_behavior c.slept remaining immediate

-- A tick at `target`, which is awaited.
unfoldable pub tick_at : Interval → Clock → ℕ → Tick
unfolding sleep_for
tick_at i c target = record {
  count = 1;
  sleep = some (sleep_for c target);
  interval = record i { next_deadline = some (target + i.period) };
}

-- `for _ in 0..missed { new_next += self.period; }`
unfoldable pub add_periods : ℕ → ℕ → ℕ → ℕ
add_periods zero period next = next
add_periods (suc n) period next = add_periods n period (next + period)

-- The ticks that are missed, without a sleep. `none` is the panic of `expect`.
unfoldable pub missed_ticks : Interval → Clock → Option Tick
unfolding base_next add_periods
missed_ticks i c =
    if i.period == 0
    then some (record {
      count = 1;
      sleep = none;
      interval = record i { next_deadline = some (c.measured + i.period) };
    })
    else (let periods = (c.start - base_next i c.start) / i.period in
        let missed = u64_add periods 1 in
        if ltb periods u64_mod
        then some (record {
          count = missed;
          sleep = none;
          interval = record i {
            next_deadline = some (add_periods missed i.period (base_next i c.start) + i.period);
          };
        })
        else none)

unfoldable pub tick : Interval → Clock → Option Tick
unfolding skip_target base_next tick_at missed_ticks
tick i c = elim i.missed_tick_behavior [
  | skip ↦ some (tick_at i c (skip_target i c.start))
  | catch_up ↦
      if ltb c.start (base_next i c.start)
      then some (tick_at i c (base_next i c.start))
      else missed_ticks i c
]
