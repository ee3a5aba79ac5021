-- ===== src/Timer/Clock/Wakeups.antt =====
-- How long the caller of `spin_and_get_deadline` may sleep, and whom `submit` and it wake.
use zincio.Prelude.{
  ℕ, ◌+◌, ◌-◌, ◌/◌, ◌≤◌, ◌<◌, ◌≡◌, subst, inl, inr, ◌⊎◌, true, false, Option, none, some, [], ◌∷◌,
  arith, ltb, ◌==◌, u64_add, u64_mod, Bool-cases, zero, suc, max,
}
use zincio.Timer.Slab.{Slab, TimerEntry, Waker}
use zincio.Timer.Wheel.{
  TimingWheel, TimerHandle, insert, is_empty, nearest_wakeup, refresh_min_expiration, non_zero,
}
use zincio.Timer.Wheel.Advance.{advance}
use zincio.Timer.Wheel.Nearest.{IsTracked, IsLeast, refresh-IsLeast}
use zincio.Timer.Wheel.Tracking.{advance-IsTracked}
use zincio.Timer.Wheel.Firing.{advance_origin}
use zincio.Timer.Wheel.Insertion.{entry_for, get-inserted_self}
use zincio.Timer.Clock.{
  Timer, Spin, nanos_per_milli, to_wait, submit, spin_by, spin_and_get_deadline,
}

module _ {S : Type 0} ⦃slab : Slab S⦄ where
  -- Every timer has a tick above 0, as `submit` sets it.
  abbrev pub HasTicks : S → Type 0
  HasTicks es = (i : ℕ) (e : TimerEntry) → slab.get es i ≡ some e → 0 < e.expiration_tick

  -- A sleep of `d` milliseconds ends at the tick of the first timer, or after the shortest sleep
  -- that the runtime makes; without a limit only when there is no timer.
  abbrev pub Sleeps : TimingWheel S → Option ℕ → Type 0
  Sleeps w none = (i : ℕ) → slab.get w.entries i ≡ none
  Sleeps w (some d) =
      (1 ≤ d)
      × ((i : ℕ) × (e : TimerEntry) × (slab.get w.entries i ≡ some e)
          × (d ≡ max (e.expiration_tick - w.current_tick) 1))
      × ((i : ℕ) (e : TimerEntry)
          → slab.get w.entries i ≡ some e
          → (w.current_tick + d ≤ e.expiration_tick) ⊎ (d ≡ 1))

  nearest-Sleeps :
      (w : TimingWheel S) (o : Option ℕ)
      → HasTicks w.entries
      → IsLeast w.entries o
      → Sleeps w (to_wait w.current_tick (non_zero o))
  nearest-Sleeps w none pos none_left = none_left
  nearest-Sleeps w (some zero) pos ((i, e, found, same), least) =
      absurd (omega (arith, pos i e found))
  nearest-Sleeps w (some (suc n)) pos ((i, e, found, same), least) =
      rw positive (omega arith, (i, e, found, omega arith), λ j f h. later f (least j f h))
    where
      positive : (suc n == 0) ≡ false
      positive = ground arith

      later :
          (f : TimerEntry)
          → suc n ≤ f.expiration_tick
          → (w.current_tick + max (suc n - w.current_tick) 1 ≤ f.expiration_tick)
            ⊎ (max (suc n - w.current_tick) 1 ≡ 1)
      later f h = ground arith

  spin_by-Sleeps :
      (t : Timer S) (now millis : ℕ)
      → IsTracked t.wheel
      → HasTicks t.wheel.entries
      → Sleeps (spin_by t now millis).0.wheel (spin_by t now millis).1.deadline
  unfolding spin_by nearest_wakeup refresh_min_expiration
  spin_by-Sleeps t now millis tracked pos =
      nearest-Sleeps (refresh_min_expiration (advance t.wheel millis).0)
        (refresh_min_expiration (advance t.wheel millis).0).min_expiration_tick
        (λ i f h.
          let (e, before, same) = advance_origin t.wheel millis i f h in
          omega (arith, pos i e before, same.1))
        (refresh-IsLeast (advance t.wheel millis).0 (advance-IsTracked t.wheel millis tracked))

  spin_cases :
      (t u : Timer S) (now : ℕ) (s : Spin)
      → spin_and_get_deadline t now ≡ some (u, s)
      → ((is_empty t.wheel ≡ true) × (u.wheel ≡ t.wheel) × (s.deadline ≡ none))
        ⊎ (spin_by t now ((now - t.instant) / nanos_per_milli) ≡ (u, s))
  unfolding spin_and_get_deadline
  spin_cases t u now s h = ground arith

  -- In a timer whose heap tracks its timers, all with ticks above 0, a spin gives no limit for the
  -- sleep exactly when no timer is left; else the limit is at least 1 ms, it is what is left of
  -- some timer's delay or 1 ms, and unless it is 1 ms it ends no later than any timer's tick.
  pub spin_deadline :
      (t u : Timer S) (now : ℕ) (s : Spin)
      → IsTracked t.wheel
      → HasTicks t.wheel.entries
      → spin_and_get_deadline t now ≡ some (u, s)
      → Sleeps u.wheel s.deadline
  unfolding is_empty
  spin_deadline t u now s tracked pos h = elim (spin_cases t u now s h) [
    | inl (empty, same, none_left) ↦
        rw (none_left, same) ((slab.is_empty_iff t.wheel.entries).0 empty)
    | inr e ↦
        subst (λ (r : Timer S × Spin). Sleeps r.0.wheel r.1.deadline) e
          (spin_by-Sleeps t now ((now - t.instant) / nanos_per_milli) tracked pos)
  ]

  -- `submit` by its three outcomes: a deadline at least 2 ^ 64 ms ahead sets and wakes nothing; one
  -- less than 1 ms ahead wakes the waker at once; only one from 1 to 2 ^ 64 - 1 ms ahead sets a
  -- timer, whose entry is found under the handle, has this waker, and has the current tick plus the
  -- whole milliseconds ahead, as a 64-bit sum.
  pub submit_outcomes :
      (t : Timer S) (deadline : ℕ) (waker : Waker)
      → let ahead = (deadline - t.instant) / nanos_per_milli in
        ((u64_mod ≤ ahead) × (submit t deadline waker ≡ (t, none, [])))
        ⊎ ((ahead ≡ 0) × (submit t deadline waker ≡ (t, none, waker ∷ [])))
        ⊎ ((1 ≤ ahead)
            × (ahead < u64_mod)
            × (h : TimerHandle) × ((submit t deadline waker).1 ≡ some h)
            × ((submit t deadline waker).2 ≡ [])
            × (slab.get (submit t deadline waker).0.wheel.entries h.slab_index
                ≡ some (entry_for t.wheel waker (u64_add t.wheel.current_tick ahead))))
  unfolding submit
  submit_outcomes t deadline waker = elim (Bool-cases (ltb ahead u64_mod)) [
    | inl fits ↦ elim (Bool-cases (ltb ahead 1)) [
      | inl zero_ahead ↦ inr (inl (ground arith, ground arith))
      | inr some_ahead ↦ inr (
          inr (
            ground arith,
            ground arith,
            (insert t.wheel waker tick).1,
            ground arith,
            ground arith,
            rw (fits, submit) (rw some_ahead (get-inserted_self t.wheel waker tick)),
          ))
    ]
    | inr far ↦ inl (ground arith, ground arith)
  ]
    where
      ahead : ℕ
      ahead = (deadline - t.instant) / nanos_per_milli

      tick : ℕ
      tick = u64_add t.wheel.current_tick ahead
