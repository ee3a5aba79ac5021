-- ===== src/Time/Timeout.antt =====
-- `Timeout` (time/timeout.rs). The inner future is a parameter: its state and what a poll of it
-- makes of the state, of the timer and of the wakers.
use zincio.Prelude.{
  ℕ, ◌+◌, ◌≤◌, ◌≡◌, ◌⊎◌, inl, inr, refl, sym, ◌∙◌, Bool, true, false, List, [], ◌++◌,
  In-append_right, if◌then◌else◌, arith, Bool-cases,
}
use zincio.Executor.Join.{Poll, ready, pending, Poll-cases}
use zincio.Timer.Slab.{Slab, Waker}
use zincio.Timer.Clock.{Timer}
use zincio.Time.Sleep.{Sleep, Polled, sleep_until}
use zincio.Time.Sleep as Sleeping
use zincio.Time.Sleep.Contract.{IsImmediate, WillWake, poll-Honest, poll-Settled}

pub data Outcome (A : Type 0) : Type 0 where
  output : A → Outcome A
  timeout_error : Outcome A

pub record Timeout (F : Type 0) : Type 0 where
  pub future : F
  pub sleep : Sleep
  pub timed_out : Bool

unfoldable pub new : {F : Type 0} → F → ℕ → ℕ → Timeout F
unfolding sleep_until
new future now duration = record {
  future = future;
  sleep = sleep_until (now + duration);
  timed_out = false;
}

-- What a poll of the inner future leaves.
pub record Inner (S F A : Type 0) : Type 0 where
  pub future : F
  pub timer : Timer S
  pub answer : Poll A
  pub woken : List Waker

-- What a poll of the timeout leaves.
pub record Raced (S F A : Type 0) : Type 0 where
  pub timeout : Timeout F
  pub timer : Timer S
  pub answer : Poll (Outcome A)
  pub woken : List Waker

module _ {S F A : Type 0} ⦃slab : Slab S⦄
    (poll_future : F → Timer S → ℕ → Waker → Inner S F A) where
  -- After the inner future: the sleep decides.
  unfoldable pub poll_sleep : Timeout F → Inner S F A → ℕ → Waker → Raced S F A
  poll_sleep t inner now waker =
      let r = Sleeping.poll t.sleep inner.timer now waker in
      elim r.answer [
        | ready u ↦ record {
          timeout = record { future = inner.future; sleep = r.sleep; timed_out = true };
          timer = r.timer;
          answer = ready timeout_error;
          woken = inner.woken ++ r.woken;
        }
        | pending ↦ record {
          timeout = record { future = inner.future; sleep = r.sleep; timed_out = t.timed_out };
          timer = r.timer;
          answer = pending;
          woken = inner.woken ++ r.woken;
        }
      ]

  unfoldable pub poll : Timeout F → Timer S → ℕ → Waker → Raced S F A
  unfolding poll_sleep
  poll t timer now waker =
      if t.timed_out
      then record { timeout = t; timer = timer; answer = ready timeout_error; woken = [] }
      else (let inner = poll_future t.future timer now waker in
          elim inner.answer [
            | ready a ↦ record {
              timeout = record t { future = inner.future };
              timer = inner.timer;
              answer = ready (output a);
              woken = inner.woken;
            }
            | pending ↦ poll_sleep t inner now waker
          ])

  -- `timed_out` and the sleep agree.
  abbrev pub IsWhole : Timeout F → Type 0
  IsWhole t = t.timed_out ≡ t.sleep.fired

  -- The inner future stays as its poll left it, and the wakers that it called were called.
  abbrev pub Keeps : Inner S F A → Raced S F A → Type 0
  Keeps inner r =
      (r.timeout.future ≡ inner.future) × (more : List Waker) × (r.woken ≡ inner.woken ++ more)

  -- What the poll leaves, as the poll of a sleep.
  abbrev pub left_of : Raced S F A → Polled S
  left_of r = record { sleep = r.timeout.sleep; timer = r.timer; answer = pending; woken = r.woken }

  -- The outcomes of a poll whose timeout has not passed yet.
  abbrev pub Race : Timeout F → Inner S F A → ℕ → Waker → Raced S F A → Type 0
  Race t inner now waker r =
      ((a : A) × (inner.answer ≡ ready a)
        × (r.answer ≡ ready (output a))
        × (r.timeout ≡ record t { future = inner.future })
        × (r.timer ≡ inner.timer)
        × (r.woken ≡ inner.woken))
      ⊎ ((inner.answer ≡ pending)
          × (r.answer ≡ ready timeout_error)
          × (r.timeout.timed_out ≡ true)
          × Keeps inner r
          × ((t.sleep.deadline ≤ now) ⊎ IsImmediate t.sleep inner.timer))
      ⊎ ((inner.answer ≡ pending)
          × (r.answer ≡ pending)
          × (r.timeout.timed_out ≡ false)
          × Keeps inner r
          × WillWake t.sleep inner.timer waker (left_of r))

  left-WillWake :
      (t : Timeout F) (inner : Inner S F A) (waker : Waker) (r : Polled S)
      → WillWake t.sleep inner.timer waker r
      → WillWake t.sleep inner.timer waker (record r { woken = inner.woken ++ r.woken })
  left-WillWake t inner waker r w = elim w [
    | inl set ↦ inl set
    | inr (near, woken) ↦ inr (near, In-append_right waker inner.woken r.woken woken)
  ]

  poll_sleep_lem :
      (t : Timeout F) (inner : Inner S F A) (now : ℕ) (waker : Waker)
      → t.timed_out ≡ false
      → t.sleep.fired ≡ false
      → inner.answer ≡ pending
      → IsWhole (poll_sleep t inner now waker).timeout
        × ((poll_sleep t inner now waker).timeout.sleep.deadline ≡ t.sleep.deadline)
        × Race t inner now waker (poll_sleep t inner now waker)
  unfolding poll_sleep
  poll_sleep_lem t inner now waker running fresh waits =
      let (deadline, cases) = poll-Settled t.sleep inner.timer now waker fresh in
      let (honest, wakes) = poll-Honest t.sleep inner.timer now waker fresh in
      let r = Sleeping.poll t.sleep inner.timer now waker in
      elim cases [
        | inl (e, fired) ↦
            rw (e, poll_sleep)
              (sym fired, deadline, inr (inl (waits, refl, refl, (refl, r.woken, refl), honest e)))
        | inr (e, fired) ↦
            rw (e, poll_sleep)
              (
                running ∙ sym fired,
                deadline,
                inr (
                    inr (
                      waits,
                      refl,
                      running,
                      (refl, r.woken, refl),
                      left-WillWake t inner waker r (wakes e),
                    )),
              )
      ]

  poll_late :
      (t : Timeout F) (timer : Timer S) (now : ℕ) (waker : Waker)
      → t.timed_out ≡ true
      → poll t timer now waker
        ≡ record { timeout = t; timer = timer; answer = ready timeout_error; woken = [] }
  unfolding poll
  poll_late t timer now waker late = simp late refl

  poll_done :
      (t : Timeout F) (timer : Timer S) (now : ℕ) (waker : Waker) (a : A)
      → t.timed_out ≡ false
      → (poll_future t.future timer now waker).answer ≡ ready a
      → poll t timer now waker ≡ record {
        timeout = record t { future = (poll_future t.future timer now waker).future };
        timer = (poll_future t.future timer now waker).timer;
        answer = ready (output a);
        woken = (poll_future t.future timer now waker).woken;
      }
  unfolding poll
  poll_done t timer now waker a running e = ground arith

  poll_waits :
      (t : Timeout F) (timer : Timer S) (now : ℕ) (waker : Waker)
      → t.timed_out ≡ false
      → (poll_future t.future timer now waker).answer ≡ pending
      → poll t timer now waker ≡ poll_sleep t (poll_future t.future timer now waker) now waker
  unfolding poll
  poll_waits t timer now waker running e = simp (running, e) refl

  -- A poll of a timeout whose `timed_out` agrees with its sleep keeps them in agreement and keeps
  -- the deadline. When the timeout has passed before, it answers the error and polls nothing. Else
  -- it polls the inner future, keeps the state it is left in and the wakers it called, and returns
  -- its output when there is one, whatever the time is, with the sleep and the timer untouched. It
  -- answers the error, and remembers it, only when the sleep may be ready (the deadline is reached,
  -- or was less than 1 ms or at least 2 ^ 64 ms after the timer's last spin). When it is pending,
  -- the sleep that the timeout keeps holds the handle of an entry of the timer that is left, with
  -- this waker and the tick of the deadline; or no timer can be set and this waker was called.
  pub poll_races :
      (t : Timeout F) (timer : Timer S) (now : ℕ) (waker : Waker)
      → IsWhole t
      → IsWhole (poll t timer now waker).timeout
        × ((poll t timer now waker).timeout.sleep.deadline ≡ t.sleep.deadline)
        × (((t.timed_out ≡ true)
              × (poll t timer now waker ≡ record {
                timeout = t;
                timer = timer;
                answer = ready timeout_error;
                woken = [];
              }))
            ⊎ ((t.timed_out ≡ false)
                × Race t (poll_future t.future timer now waker) now waker (poll t timer now waker)))
  poll_races t timer now waker whole = elim (Bool-cases t.timed_out) [
    | inl late ↦ rw (poll_late t timer now waker late) (whole, refl, inl (late, refl))
    | inr running ↦ elim (Poll-cases (poll_future t.future timer now waker).answer) [
      | inl (a, e) ↦
          rw (poll_done t timer now waker a running e)
            (whole, refl, inr (running, inl (a, e, refl, refl, refl, refl)))
      | inr e ↦
          let (whole', deadline, race) =
            poll_sleep_lem t (poll_future t.future timer now waker) now waker running
              (sym whole ∙ running) e in
          rw (poll_waits t timer now waker running e) (whole', deadline, inr (running, race))
    ]
  ]
