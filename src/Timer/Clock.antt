-- ===== src/Timer/Clock.antt =====
-- `Timer`: the wheel driven by a clock. An instant is a number of nanoseconds; each method takes
-- what `Instant::now()` returns in it. One tick of the wheel is a millisecond.
pub mod Pace
pub mod Wakeups
use zincio.Prelude.{
  ℕ, ◌+◌, ◌-◌, ◌/◌, ◌^◌, Bool, true, false, not, Option, none, some, List, [], ◌∷◌, ◌++◌, max, ltb,
  ◌==◌, if◌then◌else◌, u64_add, u64_mod, is_nil,
}
use zincio.Timer.Slab.{Slab, Waker}
use zincio.Timer.Wheel.{TimingWheel, TimerHandle, new, insert, remove, is_empty, nearest_wakeup}
use zincio.Timer.Wheel.Advance.{advance}

abbrev pub nanos_per_milli : ℕ
nanos_per_milli = 1000000

pub record Timer (S : Type 0) : Type 0 where
  pub wheel : TimingWheel S
  pub instant : ℕ

-- `u64::try_from(d.as_millis())` of a duration in nanoseconds.
abbrev pub try_millis : ℕ → Option ℕ
try_millis nanos = let m = nanos / nanos_per_milli in if ltb m u64_mod then some m else none

-- What `spin_and_get_deadline` returns, and the wakers that it wakes on the way.
pub record Spin : Type 0 where
  pub deadline : Option ℕ
  pub woken_up : Bool
  pub woken : List Waker

-- `deadline.saturating_sub(now_tick).max(1)`, in milliseconds.
abbrev pub to_wait : ℕ → Option ℕ → Option ℕ
to_wait now_tick none = none
to_wait now_tick (some deadline) = some (max (deadline - now_tick) 1)

module _ {S : Type 0} ⦃slab : Slab S⦄ where
  unfoldable pub new_timer : ℕ → Timer S
  new_timer now = record { wheel = new; instant = now }

  -- The timer, the handle if a timer was set, and the wakers that are woken at once.
  unfoldable pub submit : Timer S → ℕ → Waker → Timer S × Option TimerHandle × List Waker
  submit t deadline waker = elim (try_millis (deadline - t.instant)) [
    | none ↦ (t, none, [])
    | some millis ↦
        if ltb millis 1
        then (t, none, waker ∷ [])
        else (let (w, handle) = insert t.wheel waker (u64_add t.wheel.current_tick millis) in
            (record t { wheel = w }, some handle, []))
  ]

  unfoldable pub cancel : Timer S → TimerHandle → Timer S
  cancel t handle = record t { wheel = remove t.wheel handle }

  -- The body for a wheel with timers, once the elapsed time is known in milliseconds.
  unfoldable pub spin_by : Timer S → ℕ → ℕ → Timer S × Spin
  spin_by t now millis =
      let (w, expired) = advance t.wheel millis in
      let (w', nearest) = nearest_wakeup w in
      (
        record { wheel = w'; instant = now },
        record {
          deadline = to_wait w.current_tick nearest;
          woken_up = not (is_nil expired);
          woken = expired;
        },
      )

  -- `none` is the panic of `expect` when the elapsed milliseconds do not fit in 64 bits.
  unfoldable pub spin_and_get_deadline : Timer S → ℕ → Option (Timer S × Spin)
  spin_and_get_deadline t now =
      if is_empty t.wheel
      then some
          (record t { instant = now }, record { deadline = none; woken_up = false; woken = [] })
      else elim (try_millis (now - t.instant)) [
        | none ↦ none
        | some millis ↦ some (spin_by t now millis)
      ]
