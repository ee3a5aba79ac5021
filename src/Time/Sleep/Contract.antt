-- ===== src/Time/Sleep/Contract.antt =====
-- A sleep is not ready before its time, and one that is pending will be woken.
use zincio.Prelude.{
  ℕ, ◌+◌, ◌-◌, ◌/◌, ◌≤◌, ◌<◌, ◌≡◌, ◌⊎◌, inl, inr, refl, subst, true, false, none, some, List, [],
  ◌∷◌, leb, arith, In, In-append_right, u64_add, u64_mod, Option-cases, Bool-cases, leb→le,
}
use zincio.Executor.Join.{ready, pending}
use zincio.Timer.Slab.{Slab, TimerEntry, Waker}
use zincio.Timer.Wheel.{TimerHandle}
use zincio.Timer.Wheel.Insertion.{entry_for}
use zincio.Timer.Clock.{Timer, submit, cancel, nanos_per_milli}
use zincio.Timer.Clock.Pace.{cancel_tick}
use zincio.Timer.Clock.Wakeups.{submit_outcomes}
use zincio.Time.Sleep.{Sleep, Polled, handle_immediate_wakeup, first_poll, poll_again, poll}

module _ {S : Type 0} ⦃slab : Slab S⦄ where
  -- Less than a millisecond after the timer's last spin, or too far ahead to be counted in ticks.
  abbrev pub IsImmediate : Sleep → Timer S → Type 0
  IsImmediate s t =
      (s.deadline < t.instant + nanos_per_milli)
      ⊎ (u64_mod ≤ (s.deadline - t.instant) / nanos_per_milli)

  -- A timer is set for the waker: its entry stands under the sleep's handle, with the tick that the
  -- wheel `t` had plus the whole milliseconds left, from 1 to 2 ^ 64 - 1.
  abbrev pub IsSetFor : Sleep → Timer S → Waker → Polled S → Type 0
  IsSetFor s t waker r =
      let ahead = (s.deadline - t.instant) / nanos_per_milli in
      (1 ≤ ahead)
      × (ahead < u64_mod)
      × (h : TimerHandle) × (e : TimerEntry) × (r.sleep.handle ≡ some h)
      × (slab.get r.timer.wheel.entries h.slab_index ≡ some e)
      × (e.waker ≡ waker)
      × (e.expiration_tick ≡ u64_add t.wheel.current_tick ahead)

  -- A timer is set for the waker, or, where none can be set, the waker was called.
  abbrev pub WillWake : Sleep → Timer S → Waker → Polled S → Type 0
  WillWake s t waker r = IsSetFor s t waker r ⊎ (IsImmediate s t × In waker r.woken)

  abbrev pub Honest : Sleep → Timer S → ℕ → Waker → Polled S → Type 0
  Honest s t now waker r =
      (r.answer ≡ ready tt → (s.deadline ≤ now) ⊎ IsImmediate s t)
      × (r.answer ≡ pending → WillWake s t waker r)

  immediate-Honest :
      (s : Sleep) (t u : Timer S) (now : ℕ) (waker : Waker) (woken : List Waker)
      → IsImmediate s t
      → Honest s t now waker (handle_immediate_wakeup s u waker woken)
  unfolding handle_immediate_wakeup
  immediate-Honest s t u now waker woken i =
      ground (arith, i, In-append_right waker woken (waker ∷ []))

  submitted-WillWake :
      (s : Sleep) (t : Timer S) (waker : Waker) (h : TimerHandle)
      → (submit t s.deadline waker).1 ≡ some h
      → WillWake s t waker (record {
        sleep = record s { handle = some h };
        timer = (submit t s.deadline waker).0;
        answer = pending;
        woken = (submit t s.deadline waker).2;
      })
  submitted-WillWake s t waker h e = elim (submit_outcomes t s.deadline waker) [
    | inl (far, same) ↦ ground arith
    | inr (inl (near, same)) ↦ ground arith
    | inr (inr (one, fits, h', set, quiet, found)) ↦
        let same : h' ≡ h = ground arith in
        inl (
          one,
          fits,
          h,
          entry_for t.wheel waker tick,
          refl,
          subst
              (λ k.
                slab.get (submit t s.deadline waker).0.wheel.entries k.slab_index
                ≡ some (entry_for t.wheel waker tick))
              same found,
          refl,
          refl,
        )
  ]
    where
      tick : ℕ
      tick = u64_add t.wheel.current_tick ((s.deadline - t.instant) / nanos_per_milli)

  submitted_again-WillWake :
      (s : Sleep) (t : Timer S) (old : TimerHandle) (waker : Waker) (h : TimerHandle)
      → (submit (cancel t old) s.deadline waker).1 ≡ some h
      → WillWake s t waker (record {
        sleep = record s { handle = some h };
        timer = (submit (cancel t old) s.deadline waker).0;
        answer = pending;
        woken = (submit (cancel t old) s.deadline waker).2;
      })
  unfolding cancel
  submitted_again-WillWake s t old waker h e =
      ground (arith, cancel_tick t old, submitted-WillWake s (cancel t old) waker h e)

  unset-IsImmediate :
      (t : Timer S) (s : Sleep) (waker : Waker)
      → (submit t s.deadline waker).1 ≡ none
      → IsImmediate s t
  unset-IsImmediate t s waker e = elim (submit_outcomes t s.deadline waker) [
    | inl (far, same) ↦ inr far
    | inr (inl (near, same)) ↦ inl (omega arith)
    | inr (inr (one, fits, h', set, quiet, found)) ↦ ground arith
  ]

  first_poll-Honest :
      (s : Sleep) (t : Timer S) (now : ℕ) (waker : Waker)
      → Honest s t now waker (first_poll s t waker)
  unfolding first_poll
  first_poll-Honest s t now waker = elim (Option-cases (submit t s.deadline waker).1) [
    | inl e ↦
        rw (e, first_poll)
          (immediate-Honest s t (submit t s.deadline waker).0 now waker
            (submit t s.deadline waker).2 (unset-IsImmediate t s waker e))
    | inr (h, e) ↦ rw (e, first_poll) (λ bad. ground arith, λ _. submitted-WillWake s t waker h e)
  ]

  poll_again-Honest :
      (s : Sleep) (t : Timer S) (old : TimerHandle) (now : ℕ) (waker : Waker)
      → Honest s t now waker (poll_again s t old waker)
  unfolding poll_again cancel
  poll_again-Honest s t old now waker =
      elim (Option-cases (submit (cancel t old) s.deadline waker).1) [
        | inl e ↦
            rw (e, poll_again)
              (λ _. inr (unset-IsImmediate (cancel t old) s waker e), λ bad. ground arith)
        | inr (h, e) ↦
            rw (e, poll_again)
              (λ bad. ground arith, λ _. submitted_again-WillWake s t old waker h e)
      ]

  reached-Honest :
      (s : Sleep) (t : Timer S) (h : TimerHandle) (now : ℕ) (waker : Waker)
      → s.fired ≡ false
      → s.handle ≡ some h
      → leb s.deadline now ≡ true
      → Honest s t now waker (poll s t now waker)
  unfolding poll
  reached-Honest s t h now waker fresh set reached =
      simp (fresh, set, reached) (λ _. inl (leb→le s.deadline now reached), λ bad. ground arith)

  -- A poll of a sleep that has not fired, of any timer and for any waker, answers ready only when
  -- its deadline is reached, is less than 1 ms after the timer's last spin, or is at least 2 ^ 64 ms
  -- after it. When the answer is pending, the sleep holds the handle of a timer whose entry has this
  -- waker and, as its tick, the wheel's tick plus the whole milliseconds from the last spin to the
  -- deadline; or no timer can be set for the deadline, and this waker was called.
  pub poll-Honest :
      (s : Sleep) (t : Timer S) (now : ℕ) (waker : Waker)
      → s.fired ≡ false
      → Honest s t now waker (poll s t now waker)
  unfolding poll
  poll-Honest s t now waker fresh = elim (Option-cases s.handle) [
    | inl e ↦ simp (fresh, e) (first_poll-Honest s t now waker)
    | inr (h, e) ↦ elim (Bool-cases (leb s.deadline now)) [
      | inl reached ↦ reached-Honest s t h now waker fresh e reached
      | inr early ↦ simp (fresh, e, early) (poll_again-Honest s t h now waker)
    ]
  ]

  -- The answer and `fired` agree, and the deadline stays.
  abbrev pub Settled : Sleep → Polled S → Type 0
  Settled s r =
      (r.sleep.deadline ≡ s.deadline)
      × (((r.answer ≡ ready tt) × (r.sleep.fired ≡ true))
          ⊎ ((r.answer ≡ pending) × (r.sleep.fired ≡ false)))

  immediate-Settled :
      (s : Sleep) (t : Timer S) (waker : Waker) (woken : List Waker)
      → s.fired ≡ false
      → Settled s (handle_immediate_wakeup s t waker woken)
  unfolding handle_immediate_wakeup
  immediate-Settled s t waker woken fresh = ground arith

  first_poll-Settled :
      (s : Sleep) (t : Timer S) (waker : Waker) → s.fired ≡ false → Settled s (first_poll s t waker)
  unfolding first_poll
  first_poll-Settled s t waker fresh = elim (Option-cases (submit t s.deadline waker).1) [
    | inl e ↦
        rw (e, first_poll)
          (immediate-Settled s (submit t s.deadline waker).0 waker (submit t s.deadline waker).2
            fresh)
    | inr (h, e) ↦ rw (e, first_poll) (refl, inr (refl, fresh))
  ]

  poll_again-Settled :
      (s : Sleep) (t : Timer S) (old : TimerHandle) (waker : Waker)
      → s.fired ≡ false
      → Settled s (poll_again s t old waker)
  unfolding poll_again
  poll_again-Settled s t old waker fresh =
      elim (Option-cases (submit (cancel t old) s.deadline waker).1) [
        | inl e ↦ rw (e, poll_again) (refl, inl (refl, refl))
        | inr (h, e) ↦ rw (e, poll_again) (refl, inr (refl, fresh))
      ]

  -- A poll of a sleep that has not fired keeps its deadline, and marks it as fired exactly when the
  -- answer is ready; else it stays unfired.
  pub poll-Settled :
      (s : Sleep) (t : Timer S) (now : ℕ) (waker : Waker)
      → s.fired ≡ false
      → Settled s (poll s t now waker)
  unfolding poll
  poll-Settled s t now waker fresh = elim (Option-cases s.handle) [
    | inl e ↦ simp (fresh, e) (first_poll-Settled s t waker fresh)
    | inr (h, e) ↦ elim (Bool-cases (leb s.deadline now)) [
      | inl reached ↦ simp (fresh, e, reached) (refl, inl (refl, refl))
      | inr early ↦ simp (fresh, e, early) (poll_again-Settled s t h waker fresh)
    ]
  ]
