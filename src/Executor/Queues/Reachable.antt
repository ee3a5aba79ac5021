-- ===== src/Executor/Queues/Reachable.antt =====
-- What holds of the queues after any wakes, spawns and drains.
use zincio.Prelude.{
  ℕ, ◌+◌, ◌≤◌, ◌<◌, ◌≡◌, refl, ap, Bool, true, false, List, [], ◌∷◌, ◌++◌, length, arith,
  if◌then◌else◌, count, length-append, count-append,
}
use zincio.Executor.Queues.{
  RuntimeInner, next_task_inline_cap, with_options, enqueue, spawn, wake_local, wake_remote,
  interrupt_if_waiting, enqueue_if_needed, drain_ready, stop_waiting,
}
use zincio.Executor.Queues.Draining.{ready, drain_ready_takes, drain_next-le, count-take-drop}

-- A task stands in the three queues together once if its flag is set and not at all otherwise, the
-- fast queue holds 8 tasks at most, and the flag of a task that does not exist is not set.
pub record IsQueued (r : RuntimeInner) : Type 0 where
  pub once :
      (t : ℕ)
      → count t r.next_task + count t r.remote_queue + count t r.queue
        ≡ (if r.queued t then 1 else 0)
  pub short : length r.next_task ≤ next_task_inline_cap
  pub unborn : (t : ℕ) → r.tasks ≤ t → r.queued t ≡ false

-- What may happen to the queues: calls on the runtime's thread and wakes from other threads.
pub data Step (r u : RuntimeInner) : Type 0 where
  spawns : u ≡ spawn r → Step r u
  wakes :
      (own_thread : Bool) (task : ℕ)
      → task < r.tasks
      → u ≡ enqueue_if_needed r own_thread task
      → Step r u
  drains : (batch : List ℕ) (budget : ℕ) → u ≡ (drain_ready r batch budget).0 → Step r u
  stops : u ≡ stop_waiting r → Step r u

pub data Reach (r : RuntimeInner) : RuntimeInner → Type 0 where
  here : Reach r r
  next : {t u : RuntimeInner} → Reach r t → Step t u → Reach r u

with_options-IsQueued : (batch_size : ℕ) → IsQueued (with_options batch_size)
unfolding with_options
with_options-IsQueued n = record { once = λ t. refl; short = omega arith; unborn = λ t h. refl }

spawn-IsQueued : (r : RuntimeInner) → IsQueued r → IsQueued (spawn r)
unfolding spawn enqueue
spawn-IsQueued r q = record {
  once = λ t. ground (arith, q.once t, q.unborn r.tasks, count-append t r.queue (r.tasks ∷ []));
  short = q.short;
  unborn = λ t h. ground (arith, q.unborn t);
}

pub wake_local-IsQueued :
    (r : RuntimeInner) (task : ℕ) → task < r.tasks → IsQueued r → IsQueued (wake_local r task)
unfolding wake_local
wake_local-IsQueued r task h q = record {
  once = λ t. ground (
    arith,
    q.once t,
    q.once task,
    count-append t r.queue (task ∷ []),
    count-append t r.next_task (task ∷ []),
  );
  short = ground (arith, q.short, length-append r.next_task (task ∷ []));
  unborn = λ t g. ground (arith, q.unborn t);
}

pub wake_remote-IsQueued :
    (r : RuntimeInner) (task : ℕ) → task < r.tasks → IsQueued r → IsQueued (wake_remote r task)
unfolding wake_remote interrupt_if_waiting
wake_remote-IsQueued r task h q = record {
  once = λ t. ground (arith, q.once t, q.once task, count-append t r.remote_queue (task ∷ []));
  short = ground (arith, q.short);
  unborn = λ t g. ground (arith, q.unborn t);
}

pub count-ready :
    (r : RuntimeInner) (t : ℕ)
    → count t (ready r) ≡ count t r.next_task + count t r.remote_queue + count t r.queue
count-ready r t = omega (
  arith,
  count-append t r.next_task (r.remote_queue ++ r.queue),
  count-append t r.remote_queue r.queue,
)

drain_tasks :
    (r : RuntimeInner) (batch : List ℕ) (budget : ℕ)
    → (drain_ready r batch budget).0.tasks ≡ r.tasks
unfolding drain_ready
drain_tasks r batch budget = refl

drain-IsQueued :
    (r : RuntimeInner) (batch : List ℕ) (budget : ℕ)
    → IsQueued r
    → IsQueued (drain_ready r batch budget).0
drain-IsQueued r batch budget q = record {
  once = λ t. ground (
    arith,
    q.once t,
    count-ready r t,
    count-ready (drain_ready r batch budget).0 t,
    count-take-drop t budget (ready r),
    ap (count t) (drain_ready_takes r batch budget).1,
    (drain_ready_takes r batch budget).2 t,
  );
  short = omega (arith, q.short, drain_next-le r batch budget);
  unborn = λ t h.
      ground
        (arith, q.unborn t, drain_tasks r batch budget, (drain_ready_takes r batch budget).2 t);
}

Step-IsQueued : {r u : RuntimeInner} → Step r u → IsQueued r → IsQueued u
unfolding stop_waiting enqueue_if_needed
Step-IsQueued {r} (spawns e) q = rw e (spawn-IsQueued r q)
Step-IsQueued {r} (wakes true task h e) q = rw e (wake_local-IsQueued r task h q)
Step-IsQueued {r} (wakes false task h e) q = rw e (wake_remote-IsQueued r task h q)
Step-IsQueued {r} (drains batch budget e) q = rw e (drain-IsQueued r batch budget q)
Step-IsQueued {r} (stops e) q = rw e (record { once = q.once; short = q.short; unborn = q.unborn })

-- In every state that a new runtime reaches by spawns, wakes from its own thread and from others,
-- drains and ends of waiting, each task stands in the three queues together exactly once if its
-- flag is set and not at all otherwise, the fast queue holds 8 tasks at most, and no flag is set of
-- a task that was never spawned.
pub Reach-IsQueued :
    (batch_size : ℕ) {r : RuntimeInner} → Reach (with_options batch_size) r → IsQueued r
Reach-IsQueued batch_size here = with_options-IsQueued batch_size
Reach-IsQueued batch_size (next r s) = Step-IsQueued s (Reach-IsQueued batch_size r)
