-- ===== src/Timer/Clock/Pace.antt =====
-- How the wheel's ticks follow the clock: never ahead of it, and behind it by all the time that the
-- spins round off.
use zincio.Prelude.{
  ℕ, ◌+◌, ◌-◌, ◌*◌, ◌/◌, ◌≤◌, ◌<◌, ◌≡◌, refl, ◌∙◌, map, inl, inr, Option, none, some, List, [], ◌∷◌,
  arith, u64_add, u64_add-le, u64_add_lem, u64_mod, Option-cases, Bool-cases, zero, suc,
}
use zincio.Timer.Slab.{Slab, TimerEntry, Waker}
use zincio.Timer.Wheel.{TimingWheel, TimerHandle, is_empty, nearest_wakeup, refresh_min_expiration}
use zincio.Timer.Wheel.Advance.{advance}
use zincio.Timer.Wheel.Firing.{advance_fates, advance_none}
use zincio.Timer.Wheel.Insertion.{insert_handle}
use zincio.Timer.Wheel.Removal.{remove_cases, remove_entry_tick}
use zincio.Timer.Clock.Wakeups.{submit_outcomes}
use zincio.Timer.Clock.{
  Timer, Spin, nanos_per_milli, try_millis, submit, cancel, spin_by, spin_and_get_deadline,
}

-- The calls to a timer, each with its instant or its deadline.
pub data TimerCall : Type 0 where
  submits : (deadline : ℕ) (waker : Waker) → TimerCall
  cancels : TimerHandle → TimerCall
  spins : (now : ℕ) → TimerCall

-- The instant after a call.
abbrev pub at_call : ℕ → TimerCall → ℕ
at_call last (spins now) = now
at_call last c = last

-- The instants of the spins do not go back.
abbrev pub IsMonotone : ℕ → List TimerCall → Type 0
IsMonotone last [] = Unit {0}
IsMonotone last (c ∷ cs) = (last ≤ at_call last c) × IsMonotone (at_call last c) cs

-- Every spin comes less than a millisecond after the one before.
abbrev pub IsBusy : ℕ → List ℕ → Type 0
IsBusy last [] = Unit {0}
IsBusy last (now ∷ times) = (now < last + nanos_per_milli) × IsBusy now times

module _ {S : Type 0} ⦃slab : Slab S⦄ where
  -- The state after the call, or `none` for a panic.
  unfoldable pub timer_step : Timer S → TimerCall → Option (Timer S)
  timer_step t (submits deadline waker) = some (submit t deadline waker).0
  timer_step t (cancels handle) = some (cancel t handle)
  timer_step t (spins now) = elim (spin_and_get_deadline t now) [
    | none ↦ none
    | some (t', s) ↦ some t'
  ]

  unfoldable pub timer_run : Timer S → List TimerCall → Option (Timer S)
  timer_run t [] = some t
  timer_run t (c ∷ cs) = elim (timer_step t c) [ none ↦ none | some t' ↦ timer_run t' cs ]

  advance_tick-le :
      (w : TimingWheel S) (ticks : ℕ) → (advance w ticks).0.current_tick ≤ w.current_tick + ticks
  advance_tick-le w zero = rw (advance_none w) (omega arith)
  advance_tick-le w (suc n) =
      omega
        (arith, (advance_fates w (suc n) (λ z. omega arith)).0, u64_add-le w.current_tick (suc n))

  nearest_tick : (w : TimingWheel S) → (nearest_wakeup w).0.current_tick ≡ w.current_tick
  unfolding nearest_wakeup refresh_min_expiration
  nearest_tick w = refl

  nearest_entries : (w : TimingWheel S) → (nearest_wakeup w).0.entries ≡ w.entries
  unfolding nearest_wakeup refresh_min_expiration
  nearest_entries w = refl

  pub spin_by_tick :
      (t : Timer S) (now millis : ℕ)
      → ((spin_by t now millis).0.instant ≡ now)
        × ((spin_by t now millis).0.wheel.current_tick ≤ t.wheel.current_tick + millis)
  unfolding spin_by
  spin_by_tick t now millis =
      (refl, omega (arith, nearest_tick (advance t.wheel millis).0, advance_tick-le t.wheel millis))

  -- How far a call moves the clock and the wheel.
  abbrev Moves : Timer S → ℕ → Timer S → Type 0
  Moves t now u =
      (u.instant ≡ now)
      × (u.wheel.current_tick ≤ t.wheel.current_tick + (now - t.instant) / nanos_per_milli)

  spin_Moves :
      (t u : Timer S) (now : ℕ) (s : Spin)
      → spin_and_get_deadline t now ≡ some (u, s)
      → Moves t now u
  unfolding spin_and_get_deadline
  spin_Moves t u now s h = ground (arith, spin_by_tick t now ((now - t.instant) / nanos_per_milli))

  pub cancel_tick :
      (t : Timer S) (handle : TimerHandle)
      → (cancel t handle).wheel.current_tick ≡ t.wheel.current_tick
  unfolding cancel
  cancel_tick t handle =
      remove_cases (λ v. v.current_tick ≡ t.wheel.current_tick) t.wheel handle refl
        (λ e _. remove_entry_tick t.wheel handle.slab_index e)

  step_Moves :
      (t u : Timer S) (c : TimerCall) → timer_step t c ≡ some u → Moves t (at_call t.instant c) u
  unfolding timer_step submit cancel
  step_Moves t u (submits d k) h = ground (
    arith,
    insert_handle t.wheel k (u64_add t.wheel.current_tick ((d - t.instant) / nanos_per_milli)),
  )
  step_Moves t u (cancels handle) h = ground (arith, cancel_tick t handle)
  step_Moves t u (spins now) h = elim (Option-cases (spin_and_get_deadline t now)) [
    | inl e ↦ ground arith
    | inr ((v, s), e) ↦ ground (arith, spin_Moves t v now s e)
  ]

  -- Over any calls with instants that do not go back, the wheel's clock runs no faster than real
  -- time: the ticks that it gained are whole milliseconds that have passed.
  pub ticks-le-time :
      (t u : Timer S) (cs : List TimerCall)
      → IsMonotone t.instant cs
      → timer_run t cs ≡ some u
      → u.wheel.current_tick * nanos_per_milli + t.instant
        ≤ u.instant + t.wheel.current_tick * nanos_per_milli
  unfolding timer_run
  ticks-le-time t u [] m h = ground arith
  ticks-le-time t u (c ∷ cs) m h = elim (Option-cases (timer_step t c)) [
    | inl e ↦ ground arith
    | inr (v, e) ↦
        let (clock, pace) = step_Moves t v c e in
        omega
          (arith, m.0, clock, pace, ticks-le-time v u cs (rw clock m.1) (rw (e, timer_run) at h))
  ]

  submit-Moves :
      (t : Timer S) (deadline : ℕ) (waker : Waker) → Moves t t.instant (submit t deadline waker).0
  unfolding timer_step
  submit-Moves t deadline waker =
      step_Moves t (submit t deadline waker).0 (submits deadline waker) refl

  -- The tick of the timer that `submit` sets.
  pub submit_tick :
      (t : Timer S) (deadline : ℕ) (waker : Waker) (h : TimerHandle) (e : TimerEntry)
      → (submit t deadline waker).1 ≡ some h
      → slab.get (submit t deadline waker).0.wheel.entries h.slab_index ≡ some e
      → e.expiration_tick ≡ u64_add t.wheel.current_tick ((deadline - t.instant) / nanos_per_milli)
  submit_tick t deadline waker h e set found = elim (submit_outcomes t deadline waker) [
    | inl (far, same) ↦ ground arith
    | inr (inl (near, same)) ↦ ground arith
    | inr (inr (one, fits, h', set', quiet, found')) ↦ ground arith
  ]

  -- When `submit` sets a timer for a deadline, and its tick is below 2 ^ 64, then after any further
  -- calls with instants that do not go back, the wheel has reached the tick of its entry only when
  -- less than a millisecond is missing to the deadline.
  pub due_not_early :
      (t u : Timer S) (deadline : ℕ) (waker : Waker) (h : TimerHandle) (e : TimerEntry)
      (cs : List TimerCall)
      → (submit t deadline waker).1 ≡ some h
      → slab.get (submit t deadline waker).0.wheel.entries h.slab_index ≡ some e
      → t.wheel.current_tick + (deadline - t.instant) / nanos_per_milli < u64_mod
      → IsMonotone t.instant cs
      → timer_run (submit t deadline waker).0 cs ≡ some u
      → e.expiration_tick ≤ u.wheel.current_tick
      → deadline < u.instant + nanos_per_milli
  due_not_early t u deadline waker h e cs set found fits m ran due =
      let (clock, pace) = submit-Moves t deadline waker in
      omega (
        arith,
        clock,
        pace,
        submit_tick t deadline waker h e set found,
        u64_add_lem t.wheel.current_tick ((deadline - t.instant) / nanos_per_milli) fits,
        ticks-le-time (submit t deadline waker).0 u cs (rw clock m) ran,
      )

  busy_millis :
      (t : Timer S) (now : ℕ)
      → now < t.instant + nanos_per_milli
      → try_millis (now - t.instant) ≡ some 0
  busy_millis t now h = ground arith

  busy_spin :
      (t : Timer S) (now : ℕ)
      → now < t.instant + nanos_per_milli
      → (u : Timer S) × (timer_step t (spins now) ≡ some u)
        × (u.instant ≡ now)
        × (u.wheel.current_tick ≡ t.wheel.current_tick)
        × (u.wheel.entries ≡ t.wheel.entries)
  unfolding timer_step spin_and_get_deadline spin_by
  busy_spin t now h = elim (Bool-cases (is_empty t.wheel)) [
    | inl e ↦ (record t { instant = now }, ground arith, refl, refl, refl)
    | inr e ↦ (
      record { wheel = (nearest_wakeup t.wheel).0; instant = now },
      ground (arith, advance_none t.wheel, busy_millis t now h),
      refl,
      nearest_tick t.wheel,
      nearest_entries t.wheel,
    )
  ]

  -- Each spin sets the instant anew and drops the part of the elapsed time below a millisecond. So
  -- however long the timer is spun, while every spin comes less than a millisecond after the one
  -- before, the wheel's clock stands still, no timer leaves the wheel and no spin fails.
  pub busy_spins_stop_time :
      (t : Timer S) (times : List ℕ)
      → IsBusy t.instant times
      → (u : Timer S) × (timer_run t (map spins times) ≡ some u)
        × (u.wheel.current_tick ≡ t.wheel.current_tick)
        × (u.wheel.entries ≡ t.wheel.entries)
  unfolding timer_run
  busy_spins_stop_time t [] b = (t, refl, refl, refl)
  busy_spins_stop_time t (now ∷ times) b =
      let (v, step, clock, tick, entries) = busy_spin t now b.0 in
      let (u, rest, tick', entries') = busy_spins_stop_time v times (rw clock b.1) in
      (u, rw (step, timer_run) rest, tick' ∙ tick, entries' ∙ entries)
