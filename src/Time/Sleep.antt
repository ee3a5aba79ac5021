-- ===== src/Time/Sleep.antt =====
-- `Sleep` (time/sleep.rs), polled inside a runtime, whose timer is an argument. An instant is a
-- number of nanoseconds.
pub mod Contract
use zincio.Prelude.{
  ℕ, ◌+◌, Bool, true, false, Option, none, some, List, [], ◌∷◌, ◌++◌, leb, if◌then◌else◌,
}
use zincio.Executor.Join.{Poll, ready, pending}
use zincio.Timer.Slab.{Slab, Waker}
use zincio.Timer.Wheel.{TimerHandle}
use zincio.Timer.Clock.{Timer, submit, cancel}

pub data ZeroBehavior : Type 0 where
  immediate yield : ZeroBehavior

pub record Sleep : Type 0 where
  pub handle : Option TimerHandle
  pub fired : Bool
  pub yield_scheduled : Bool
  pub zero_behavior : ZeroBehavior
  pub deadline : ℕ

unfoldable pub sleep_until : ℕ → Sleep
sleep_until deadline = record {
  handle = none;
  fired = false;
  yield_scheduled = false;
  zero_behavior = immediate;
  deadline = deadline;
}

unfoldable pub new_with_zero_behavior : ℕ → ℕ → ZeroBehavior → Sleep
unfolding sleep_until
new_with_zero_behavior now duration behavior = record (sleep_until (now + duration)) {
  zero_behavior = behavior;
}

-- What a poll leaves: the sleep, the timer, the answer, and the wakers that were called.
pub record Polled (S : Type 0) : Type 0 where
  pub sleep : Sleep
  pub timer : Timer S
  pub answer : Poll (Unit {0})
  pub woken : List Waker

module _ {S : Type 0} ⦃slab : Slab S⦄ where
  unfoldable pub handle_immediate_wakeup : Sleep → Timer S → Waker → List Waker → Polled S
  handle_immediate_wakeup s t waker woken = elim s.zero_behavior [
    | immediate ↦ record {
      sleep = record s { fired = true };
      timer = t;
      answer = ready tt;
      woken = woken;
    }
    | yield ↦
        if s.yield_scheduled
        then record {
          sleep = record s { fired = true };
          timer = t;
          answer = ready tt;
          woken = woken;
        }
        else record {
          sleep = record s { yield_scheduled = true };
          timer = t;
          answer = pending;
          woken = woken ++ waker ∷ [];
        }
  ]

  -- The first poll sets the timer.
  unfoldable pub first_poll : Sleep → Timer S → Waker → Polled S
  first_poll s t waker =
      let (t', set, woken) = submit t s.deadline waker in
      elim set [
        | some h ↦ record {
          sleep = record s { handle = some h };
          timer = t';
          answer = pending;
          woken = woken;
        }
        | none ↦ handle_immediate_wakeup s t' waker woken
      ]

  -- A poll before the deadline sets the timer anew, for the waker of this poll.
  unfoldable pub poll_again : Sleep → Timer S → TimerHandle → Waker → Polled S
  poll_again s t old waker =
      let (t', set, woken) = submit (cancel t old) s.deadline waker in
      elim set [
        | some h ↦ record {
          sleep = record s { handle = some h };
          timer = t';
          answer = pending;
          woken = woken;
        }
        | none ↦ record {
          sleep = record s { handle = none; fired = true };
          timer = t';
          answer = ready tt;
          woken = woken;
        }
      ]

  unfoldable pub poll : Sleep → Timer S → ℕ → Waker → Polled S
  poll s t now waker =
      if s.fired
      then record { sleep = s; timer = t; answer = ready tt; woken = [] }
      else elim s.handle [
        | none ↦ first_poll s t waker
        | some h ↦
            if leb s.deadline now
            then record {
              sleep = record s { fired = true; handle = none };
              timer = t;
              answer = ready tt;
              woken = [];
            }
            else poll_again s t h waker
      ]

  -- `Drop` and `reset` cancel the timer that is still set.
  unfoldable pub cancel_handle : Sleep → Timer S → Timer S
  cancel_handle s t = elim s.handle [ none ↦ t | some h ↦ cancel t h ]

  unfoldable pub reset : Sleep → Timer S → ℕ → Sleep × Timer S
  reset s t deadline = (
    record s { deadline = deadline; fired = false; yield_scheduled = false; handle = none },
    cancel_handle s t,
  )
