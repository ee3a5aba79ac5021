-- ===== src/Time/Interval/Cadence.antt =====
-- Which multiples of the period an interval ticks at.
use zincio.Prelude.{ℕ, ◌+◌, ◌-◌, ◌/◌, ◌≤◌, ◌<◌, ◌≡◌, false, none, some}
use zincio.Timer.Clock.{nanos_per_milli}
use zincio.Time.Sleep.{Sleep, immediate, yield}
use zincio.Time.Interval.{Interval, Clock, Tick, base_next}

-- The sleep for a target: the time that was left when it was measured, from when the sleep was made;
-- with less than a millisecond left it yields, else it is ready at once where no timer can be set.
abbrev pub SleepsUntil : Clock → ℕ → Sleep → Type 0
SleepsUntil c target s =
    (s.deadline ≡ c.slept + (target - c.measured))
    × (target < c.measured + nanos_per_milli → s.zero_behavior ≡ yield)
    × (c.measured + nanos_per_milli ≤ target → s.zero_behavior ≡ immediate)
    × (s.handle ≡ none)
    × (s.fired ≡ false)
    × (s.yield_scheduled ≡ false)
    × (c.measured ≤ c.slept → target ≤ s.deadline)

-- The tick at `target`: awaited until then, and followed by the tick a period later.
abbrev pub Awaits : Interval → Clock → ℕ → Tick → Type 0
Awaits i c target r =
    (r.count ≡ 1)
    × (r.interval.next_deadline ≡ some (target + i.period))
    × ((s : Sleep) × (r.sleep ≡ some s) × SleepsUntil c target s)

-- The number of missed ticks, as the source computes it.
abbrev missed_count : Interval → ℕ → ℕ
missed_count i now = (now - base_next i now) / i.period + 1
