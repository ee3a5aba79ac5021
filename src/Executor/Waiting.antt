-- ===== src/Executor/Waiting.antt =====
-- The end of a round of `Runtime::block_on`, against any number of other threads that wake tasks
-- (`Task::enqueue_if_needed`) or the root future (`BlockOnNotify::wake_by_ref`). Every load, store
-- and swap of a shared flag is one step, and steps of the threads interleave in one order.
pub mod Safety
use zincio.Prelude.{ℕ, ◌+◌, ◌<◌, ◌≡◌, Bool, true, false, ◌==◌, if◌then◌else◌}

-- What the threads share: how much work is announced (tasks in the remote queue, and the flag of
-- the root future), the two flags of the runtime, and the interrupts that the driver has not seen.
pub record Shared : Type 0 where
  pub work : ℕ
  pub waiting : Bool
  pub interrupt_pending : Bool
  pub sent : ℕ

-- Where the scheduler stands in `block_on`.
pub data Scheduler : Type 0 where
  running : Scheduler  -- polling tasks, or before the store to `interrupt_pending`
  cleared : Scheduler  -- `interrupt_pending` is false
  armed : Scheduler  -- `waiting` is true, before the last look at the queues
  checked : Scheduler  -- nothing to do was seen
  blocked : Scheduler  -- in `driver.wait`
  stopping : Scheduler  -- before the first store of `stop_waiting`
  half_stopped : Scheduler  -- between the stores of `stop_waiting`

-- Where another thread stands in a wake.
pub data Waker : Type 0 where
  idle : Waker
  flagged : Waker  -- `queued` was false and is now true, before the push
  announced : Waker  -- before the load of `waiting`
  saw_waiting : Waker  -- before the swap of `interrupt_pending`
  first : Waker  -- before the interrupt

-- One step of a waking thread.
pub data Wake (m : Shared) (p : Waker) (m' : Shared) (p' : Waker) : Type 0 where
  flag : p ≡ idle → m' ≡ m → p' ≡ flagged → Wake m p m' p'
  already_queued : p ≡ idle → m' ≡ m → p' ≡ announced → Wake m p m' p'
  announce : p ≡ flagged → m' ≡ record m { work = m.work + 1 } → p' ≡ announced → Wake m p m' p'
  load_waiting :
      p ≡ announced → m' ≡ m → p' ≡ (if m.waiting then saw_waiting else idle) → Wake m p m' p'
  swap_pending :
      p ≡ saw_waiting
      → m' ≡ record m { interrupt_pending = true }
      → p' ≡ (if m.interrupt_pending then idle else first)
      → Wake m p m' p'
  interrupt : p ≡ first → m' ≡ record m { sent = m.sent + 1 } → p' ≡ idle → Wake m p m' p'

-- One step of the scheduler. While it runs, it may take any of the announced work.
pub data Sched (m : Shared) (p : Scheduler) (m' : Shared) (p' : Scheduler) : Type 0 where
  take_work :
      (left : ℕ) → p ≡ running → m' ≡ record m { work = left } → p' ≡ running → Sched m p m' p'
  clear_pending :
      p ≡ running → m' ≡ record m { interrupt_pending = false } → p' ≡ cleared → Sched m p m' p'
  set_waiting : p ≡ cleared → m' ≡ record m { waiting = true } → p' ≡ armed → Sched m p m' p'
  check : p ≡ armed → m' ≡ m → p' ≡ (if m.work == 0 then checked else stopping) → Sched m p m' p'
  timer_woke : p ≡ checked → m' ≡ m → p' ≡ stopping → Sched m p m' p'
  wait : p ≡ checked → m' ≡ m → p' ≡ blocked → Sched m p m' p'
  wait_returns : p ≡ blocked → m' ≡ record m { sent = 0 } → p' ≡ stopping → Sched m p m' p'
  unset_waiting :
      p ≡ stopping → m' ≡ record m { waiting = false } → p' ≡ half_stopped → Sched m p m' p'
  unset_pending :
      p ≡ half_stopped
      → m' ≡ record m { interrupt_pending = false }
      → p' ≡ running
      → Sched m p m' p'

pub record System : Type 0 where
  pub shared : Shared
  pub scheduler : Scheduler
  pub threads : ℕ → Waker

abbrev pub update : (ℕ → Waker) → ℕ → Waker → ℕ → Waker
update threads i p j = if j == i then p else threads j

pub data Step (s u : System) : Type 0 where
  schedules : Sched s.shared s.scheduler u.shared u.scheduler → u.threads ≡ s.threads → Step s u
  wakes :
      (i : ℕ) (p' : Waker)
      → Wake s.shared (s.threads i) u.shared p'
      → u.threads ≡ update s.threads i p'
      → u.scheduler ≡ s.scheduler
      → Step s u

abbrev pub start : System
start = record {
  shared = record { work = 0; waiting = false; interrupt_pending = false; sent = 0 };
  scheduler = running;
  threads = λ i. idle;
}

pub data Reach : System → Type 0 where
  here : Reach start
  next : {s u : System} → Reach s → Step s u → Reach u
