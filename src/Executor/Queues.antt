-- ===== src/Executor/Queues.antt =====
-- `RuntimeInner` with its three ready queues, and `Task`: waking, draining and the flags that go
-- with them. Tasks are numbered in the order of their creation; a task's `queued` flag stands in
-- the runtime's state, since all of its tasks share that runtime.
pub mod Draining
pub mod Reachable
pub mod Wakes
use zincio.Prelude.{
  ℕ, zero, suc, ◌+◌, Bool, true, false, not, ◌&&◌, ◌||◌, List, [], ◌∷◌, ◌++◌, length, is_nil, ltb,
  ◌==◌, if◌then◌else◌,
}

-- `NEXT_TASK_INLINE_CAP`.
abbrev pub next_task_inline_cap : ℕ
next_task_inline_cap = 8

pub record RuntimeInner : Type 0 where
  pub queue : List ℕ
  pub next_task : List ℕ
  pub remote_queue : List ℕ
  pub waiting : Bool
  pub interrupt_pending : Bool
  pub batch_size : ℕ
  pub queued : ℕ → Bool
  pub tasks : ℕ  -- how many tasks were created
  pub interrupts : ℕ  -- how often the driver was interrupted

abbrev pub set_flag : (ℕ → Bool) → ℕ → Bool → ℕ → Bool
set_flag flags task v t = if t == task then v else flags t

unfoldable pub with_options : ℕ → RuntimeInner
with_options batch_size = record {
  queue = [];
  next_task = [];
  remote_queue = [];
  waiting = false;
  interrupt_pending = false;
  batch_size = batch_size;
  queued = λ t. false;
  tasks = 0;
  interrupts = 0;
}

unfoldable pub enqueue : RuntimeInner → ℕ → RuntimeInner
enqueue r task = record r { queue = r.queue ++ task ∷ [] }

-- `spawn` and `spawn_detached`: a new task, which starts with its flag set.
unfoldable pub spawn : RuntimeInner → RuntimeInner
spawn r =
    enqueue (record r { queued = set_flag r.queued r.tasks true; tasks = r.tasks + 1 }) r.tasks

-- The branch of `enqueue_if_needed` for the runtime's own thread, while the runtime lives.
unfoldable pub wake_local : RuntimeInner → ℕ → RuntimeInner
wake_local r task =
    if r.queued task
    then r
    else if ltb (length r.next_task) next_task_inline_cap
    then record r { queued = set_flag r.queued task true; next_task = r.next_task ++ task ∷ [] }
    else record r { queued = set_flag r.queued task true; queue = r.queue ++ task ∷ [] }

-- `waiting.load() && !interrupt_pending.swap(true)`, and the interrupt.
unfoldable pub interrupt_if_waiting : RuntimeInner → RuntimeInner
interrupt_if_waiting r =
    if r.waiting && not r.interrupt_pending
    then record r { interrupt_pending = true; interrupts = r.interrupts + 1 }
    else r

-- The branch for any other thread.
unfoldable pub wake_remote : RuntimeInner → ℕ → RuntimeInner
wake_remote r task = interrupt_if_waiting (
    if r.queued task then r else record r {
      queued = set_flag r.queued task true;
      remote_queue = r.remote_queue ++ task ∷ [];
    })

unfoldable pub enqueue_if_needed : RuntimeInner → Bool → ℕ → RuntimeInner
enqueue_if_needed r own_thread task = if own_thread then wake_local r task else wake_remote r task

-- What one of the loops of `drain_ready` leaves.
pub record Drained : Type 0 where
  pub left : List ℕ
  pub budget : ℕ
  pub batch : List ℕ
  pub queued : ℕ → Bool

unfoldable pub drain_loop : ℕ → List ℕ → List ℕ → (ℕ → Bool) → Drained
drain_loop zero q batch queued = record { left = q; budget = 0; batch = batch; queued = queued }
drain_loop (suc b) [] batch queued = record {
  left = [];
  budget = suc b;
  batch = batch;
  queued = queued;
}
drain_loop (suc b) (t ∷ q) batch queued = drain_loop b q (batch ++ t ∷ []) (set_flag queued t false)

unfoldable pub drain_ready : RuntimeInner → List ℕ → ℕ → RuntimeInner × List ℕ
drain_ready r batch budget =
    let next = drain_loop budget r.next_task batch r.queued in
    let remote = drain_loop next.budget r.remote_queue next.batch next.queued in
    let main = drain_loop remote.budget r.queue remote.batch remote.queued in
    (
      record r {
        next_task = next.left;
        remote_queue = remote.left;
        queue = main.left;
        queued = main.queued;
      },
      main.batch,
    )

unfoldable pub stop_waiting : RuntimeInner → RuntimeInner
stop_waiting r = record r { waiting = false; interrupt_pending = false }

unfoldable pub should_skip_wait : RuntimeInner → Bool
should_skip_wait r =
    if not (is_nil r.next_task) || not (is_nil r.remote_queue) then true else not (is_nil r.queue)
