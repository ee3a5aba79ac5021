-- ===== src/Executor/Queues/Wakes.antt =====
-- A woken task is polled, and the runtime waits only with nothing to poll.
use zincio.Prelude.{
  ℕ, zero, suc, ◌≤◌, ◌<◌, ◌≡◌, ◌↔◌, refl, ap, ◌∙◌, Bool, true, false, List, [], ◌∷◌, ◌++◌, length,
  take, arith, ◌==◌, if◌then◌else◌, count, is_nil,
}
use zincio.Executor.Queues.{
  RuntimeInner, wake_local, wake_remote, interrupt_if_waiting, enqueue_if_needed, drain_ready,
  should_skip_wait,
}
use zincio.Executor.Queues.Draining.{ready, drain_ready_takes}
use zincio.Executor.Queues.Reachable.{
  IsQueued, count-ready, wake_local-IsQueued, wake_remote-IsQueued,
}

take-all : (n : ℕ) (xs : List ℕ) → length xs ≤ n → take n xs ≡ xs
take-all zero [] h = refl
take-all zero (x ∷ xs) h = absurd (omega arith)
take-all (suc n) [] h = refl
take-all (suc n) (x ∷ xs) h = ap (◌∷◌ x) (take-all n xs (omega arith))

enqueue_if_needed-IsQueued :
    (r : RuntimeInner) (own_thread : Bool) (task : ℕ)
    → task < r.tasks
    → IsQueued r
    → IsQueued (enqueue_if_needed r own_thread task)
unfolding enqueue_if_needed
enqueue_if_needed-IsQueued r true task h q = wake_local-IsQueued r task h q
enqueue_if_needed-IsQueued r false task h q = wake_remote-IsQueued r task h q

-- A wake sets the flag of its task and touches no other flag.
wake_flags :
    (r : RuntimeInner) (own_thread : Bool) (task t : ℕ)
    → (enqueue_if_needed r own_thread task).queued t ≡ (if t == task then true else r.queued t)
unfolding enqueue_if_needed wake_local wake_remote interrupt_if_waiting
wake_flags r true task t = ground arith
wake_flags r false task t = ground arith

-- In a runtime whose queues are in order, a wake of an existing task, from any thread and whether
-- or not the task was already queued, puts the task once into the next batch, if the batch has
-- room for all that is ready.
pub woken_once_in_batch :
    (r : RuntimeInner) (own_thread : Bool) (task budget : ℕ)
    → IsQueued r
    → task < r.tasks
    → length (ready (enqueue_if_needed r own_thread task)) ≤ budget
    → count task (drain_ready (enqueue_if_needed r own_thread task) [] budget).1 ≡ 1
woken_once_in_batch r own_thread task budget q h room =
    ap (count task) ((drain_ready_takes u [] budget).0 ∙ take-all budget (ready u) room)
    ∙ ground (
      arith,
      count-ready u task,
      (enqueue_if_needed-IsQueued r own_thread task h q).once task,
      wake_flags r own_thread task task,
    )
  where
    u : RuntimeInner
    u = enqueue_if_needed r own_thread task

is_nil_all :
    (a b c : List ℕ)
    → (is_nil a ≡ true) × (is_nil b ≡ true) × (is_nil c ≡ true)
    → a ++ (b ++ c) ≡ []
is_nil_all [] [] [] h = refl
is_nil_all [] [] (x ∷ c) h = cc (h.2)
is_nil_all [] (x ∷ b) c h = cc (h.1)
is_nil_all (x ∷ a) b c h = cc (h.0)

nil_is_nil :
    (a b c : List ℕ)
    → a ++ (b ++ c) ≡ []
    → (is_nil a ≡ true) × (is_nil b ≡ true) × (is_nil c ≡ true)
nil_is_nil [] [] [] h = (refl, refl, refl)
nil_is_nil [] [] (x ∷ c) h = cc
nil_is_nil [] (x ∷ b) c h = cc
nil_is_nil (x ∷ a) b c h = cc

-- In a runtime whose queues are in order, `should_skip_wait` says no exactly when no task is ready,
-- and then no task has its flag set.
pub should_skip_wait_iff :
    (r : RuntimeInner)
    → IsQueued r
    → ((should_skip_wait r ≡ false) ↔ (ready r ≡ []))
      × (should_skip_wait r ≡ false → (t : ℕ) → r.queued t ≡ false)
unfolding should_skip_wait
should_skip_wait_iff r q = (
  (
    λ h. is_nil_all r.next_task r.remote_queue r.queue (ground arith),
    λ h. ground (arith, nil_is_nil r.next_task r.remote_queue r.queue h),
  ),
  λ h t. ground (
    arith,
    q.once t,
    count-ready r t,
    ap (count t) (is_nil_all r.next_task r.remote_queue r.queue (ground arith)),
  ),
)
