-- ===== src/Timer/Tests/ClockWitnesses.antt =====
-- The theorems on the timer, each at an input that meets its hypotheses.
use zincio.Prelude.{
  vec_get, ℕ, zero, suc, ◌+◌, ◌-◌, ◌/◌, ◌≤◌, ◌<◌, ◌≡◌, ◌⊎◌, refl, List, [], ◌∷◌, none, some, map,
  arith, u64_add, u64_mod,
}
use zincio.Timer.Slab.{TimerEntry}
use zincio.Timer.Wheel.{TimerHandle, insert, new}
use zincio.Timer.Wheel.Insertion.{entry_for}
use zincio.Timer.Wheel.Nearest.{IsTracked, new-IsTracked}
use zincio.Timer.Wheel.Tracking.{insert-IsTracked}
use zincio.Timer.Clock.{Timer, Spin, nanos_per_milli, submit, spin_by, spin_and_get_deadline}
use zincio.Timer.Clock.Pace
use zincio.Timer.Clock.Pace.{TimerCall, submits, cancels, spins, timer_run, timer_step}
use zincio.Timer.Clock.Wakeups
use zincio.Timer.Clock.Wakeups.{Sleeps}
use zincio.Timer.Tests.Runs.{runs}
use zincio.Timer.Tests.VecSlab.{VecSlab, vec_slab}

-- A timer with one entry, for tick 50, at the instant 0.
abbrev one_set : Timer VecSlab
one_set = record { wheel = (insert new 1 50).0; instant = 0 }

one_set-IsTracked : IsTracked one_set.wheel
unfolding runs
one_set-IsTracked = insert-IsTracked (new {S = VecSlab}) 1 50 new-IsTracked (omega arith)

-- Twenty milliseconds later.
abbrev spun : Timer VecSlab × Spin
spun = spin_by one_set 20000000 20

spin_deadline_example : Sleeps spun.0.wheel spun.1.deadline
unfolding runs spin_and_get_deadline spin_by
spin_deadline_example =
    Wakeups.spin_deadline one_set spun.0 20000000 spun.1 one_set-IsTracked positive refl
  where
    positive :
        (i : ℕ) (e : TimerEntry) → vec_get one_set.wheel.entries i ≡ some e → 0 < e.expiration_tick
    positive zero e h = ground arith
    positive (suc i) e h = cc

submit_outcomes_example :
    let ahead = (2500000 - one_set.instant) / nanos_per_milli in
    ((u64_mod ≤ ahead) × (submit one_set 2500000 9 ≡ (one_set, none, [])))
    ⊎ ((ahead ≡ 0) × (submit one_set 2500000 9 ≡ (one_set, none, 9 ∷ [])))
    ⊎ ((1 ≤ ahead)
        × (ahead < u64_mod)
        × (h : TimerHandle) × ((submit one_set 2500000 9).1 ≡ some h)
        × ((submit one_set 2500000 9).2 ≡ [])
        × (vec_get (submit one_set 2500000 9).0.wheel.entries h.slab_index
            ≡ some (entry_for one_set.wheel 9 (u64_add one_set.wheel.current_tick ahead))))
submit_outcomes_example = Wakeups.submit_outcomes one_set 2500000 9

-- A second timer, submitted for 50.3 ms, then a spin at 20 ms and one at 50.1 ms.
abbrev two_set : Timer VecSlab
unfolding submit
two_set = (submit one_set 50300000 9).0

abbrev spun_twice : Timer VecSlab
spun_twice = (spin_by (spin_by two_set 20000000 20).0 50100000 30).0

due_not_early_example : 50300000 < spun_twice.instant + nanos_per_milli
unfolding runs spin_and_get_deadline spin_by timer_run timer_step submit
due_not_early_example =
    Pace.due_not_early one_set spun_twice 50300000 9 (insert one_set.wheel 9 50).1
      (entry_for one_set.wheel 9 50) (spins 20000000 ∷ spins 50100000 ∷ []) refl refl (omega arith)
      (omega arith) refl (omega arith)

abbrev half_millis : List ℕ
half_millis = 500000 ∷ 1000000 ∷ 1500000 ∷ 2000000 ∷ []

busy_spins_stop_time_example :
    (u : Timer VecSlab) × (timer_run one_set (map spins half_millis) ≡ some u)
    × (u.wheel.current_tick ≡ one_set.wheel.current_tick)
    × (u.wheel.entries ≡ one_set.wheel.entries)
busy_spins_stop_time_example = Pace.busy_spins_stop_time one_set half_millis (omega arith)
