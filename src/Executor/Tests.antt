-- ===== src/Executor/Tests.antt =====
-- The theorems on the executor, each at an input that meets its hypotheses.
use zincio.Prelude.{
  ℕ, suc, ◌+◌, ◌<◌, ◌≡◌, ◌↔◌, ◌⊎◌, refl, Bool, true, false, none, [], ◌∷◌, take, drop, count, arith,
  In, ◌==◌,
}
use zincio.Executor.Queues.{
  RuntimeInner, with_options, spawn, enqueue, enqueue_if_needed, wake_local, wake_remote,
  interrupt_if_waiting, drain_ready, drain_loop, should_skip_wait,
}
use zincio.Executor.Queues.Draining
use zincio.Executor.Queues.Draining.{ready, cleared}
use zincio.Executor.Queues.Reachable
use zincio.Executor.Queues.Reachable.{IsQueued, Reach, spawns, wakes, drains}
use zincio.Executor.Queues.Wakes
use zincio.Executor.Join.{Poll, SpawnFuture, spawned, poll_task, poll_handle, cancel}
use zincio.Executor.Join
use zincio.Executor.Join.Protocol
use zincio.Executor.Join.Protocol.{
  JoinCall, polls_task, polls_handle, join_run, join_step, poll_times,
}
use zincio.Executor.Waiting
use zincio.Executor.Waiting.{System, Shared, Scheduler, Waker, blocked, announced, idle}
use zincio.Executor.Waiting.Safety

-- Two tasks, spawned, drained, and woken: one from the runtime's thread, one from another.
abbrev two_tasks : RuntimeInner
two_tasks = spawn (spawn (with_options 256))

abbrev drained : RuntimeInner
drained = (drain_ready two_tasks [] 256).0

abbrev woken : RuntimeInner
woken = enqueue_if_needed drained true 1

unfoldable runs : ℕ
unfolding with_options spawn enqueue enqueue_if_needed wake_local wake_remote interrupt_if_waiting
    drain_ready drain_loop
runs = 0

woken-Reach : Reach (with_options 256) woken
unfolding runs
woken-Reach =
    Reachable.next
      (Reachable.next (Reachable.next (Reachable.next Reachable.here (spawns refl)) (spawns refl))
        (drains [] 256 refl))
      (wakes true 1 (omega arith) refl)

Reach-IsQueued_example : IsQueued woken
Reach-IsQueued_example = Reachable.Reach-IsQueued 256 woken-Reach

drained-IsQueued : IsQueued drained
drained-IsQueued = Reachable.Reach-IsQueued 256 (
    Reachable.next (Reachable.next (Reachable.next Reachable.here (spawns refl)) (spawns refl))
      (drains [] 256 refl))

drain_ready_takes_example :
    ((drain_ready two_tasks (9 ∷ []) 1).1 ≡ 9 ∷ take 1 (ready two_tasks))
    × (ready (drain_ready two_tasks (9 ∷ []) 1).0 ≡ drop 1 (ready two_tasks))
    × ((t : ℕ)
        → (drain_ready two_tasks (9 ∷ []) 1).0.queued t
          ≡ cleared two_tasks.queued (take 1 (ready two_tasks)) t)
drain_ready_takes_example = Draining.drain_ready_takes two_tasks (9 ∷ []) 1

woken_once_in_batch_example : count 0 (drain_ready (enqueue_if_needed drained false 0) [] 8).1 ≡ 1
unfolding runs
woken_once_in_batch_example =
    Wakes.woken_once_in_batch drained false 0 8 drained-IsQueued (omega arith) (omega arith)

should_skip_wait_iff_example :
    ((should_skip_wait drained ≡ false) ↔ (ready drained ≡ []))
    × (should_skip_wait drained ≡ false → (t : ℕ) → drained.queued t ≡ false)
should_skip_wait_iff_example = Wakes.should_skip_wait_iff drained drained-IsQueued

-- A future that is ready with 42 at its third poll.
abbrev third : ℕ → Poll ℕ
third k = elim (k == 2) [ true ↦ Join.ready 42 | false ↦ Join.pending ]

handle_output_example :
    ((n : ℕ) × ((join_run third spawned (polls_task ∷ polls_task ∷ polls_task ∷ [])).polls ≡ suc n)
      × (third n ≡ Join.ready 42))
    × ((poll_handle 5
          (join_run third spawned (polls_task ∷ polls_task ∷ polls_task ∷ []))).0.state.output
        ≡ none)
unfolding join_run join_step poll_task poll_handle spawned
handle_output_example =
    Protocol.handle_output third (polls_task ∷ polls_task ∷ polls_task ∷ []) 5 42 refl

handle_is_woken_example :
    In 5 (poll_times third 3 (poll_handle 5 (spawned {A = ℕ})).0).woken
    × ((poll_handle 6 (poll_times third 3 (poll_handle 5 (spawned {A = ℕ})).0)).1 ≡ Join.ready 42)
unfolding spawned poll_handle
handle_is_woken_example =
    Protocol.handle_is_woken third spawned 2 5 6 42 refl refl refl pending_twice refl
  where
    pending_twice : (k : ℕ) → k < 2 → third (0 + k) ≡ Join.pending
    pending_twice k lt = ground arith

cancel_stops_example :
    ((join_run third (cancel spawned) (polls_task ∷ polls_handle 5 ∷ [])).polls
      ≡ (spawned {A = ℕ}).polls)
    × ((join_run third (cancel spawned) (polls_task ∷ polls_handle 5 ∷ [])).woken
        ≡ (spawned {A = ℕ}).woken)
    × ((spawned {A = ℕ}).state.output ≡ none
        → (join_run third (cancel spawned) (polls_task ∷ polls_handle 5 ∷ [])).state.output ≡ none)
cancel_stops_example = Protocol.cancel_stops third spawned (polls_task ∷ polls_handle 5 ∷ [])

-- Thread 0 announces work while the scheduler sleeps.
abbrev quiet : Bool → Shared
quiet waiting = record { work = 0; waiting = waiting; interrupt_pending = false; sent = 0 }

abbrev no_threads : ℕ → Waker
no_threads i = idle

abbrev sleeps_at : Scheduler → Bool → System
sleeps_at place waiting = record { shared = quiet waiting; scheduler = place; threads = no_threads }

sleeping : Waiting.Reach (sleeps_at blocked true)
sleeping =
    Waiting.next {s = sleeps_at Waiting.checked true}
      (Waiting.next {s = sleeps_at Waiting.armed true}
        (Waiting.next {s = sleeps_at Waiting.cleared false}
          (Waiting.next {s = Waiting.start} Waiting.here
            (Waiting.schedules (Waiting.clear_pending refl refl refl) refl))
          (Waiting.schedules (Waiting.set_waiting refl refl refl) refl))
        (Waiting.schedules (Waiting.check refl refl refl) refl))
      (Waiting.schedules (Waiting.wait refl refl refl) refl)

abbrev flagged_0 : System
flagged_0 = record (sleeps_at blocked true) {
  threads = Waiting.update no_threads 0 Waiting.flagged;
}

abbrev announced_0 : System
announced_0 = record {
  shared = record (quiet true) { work = 1 };
  scheduler = blocked;
  threads = Waiting.update flagged_0.threads 0 announced;
}

announced_0-Reach : Waiting.Reach announced_0
announced_0-Reach =
    Waiting.next {s = flagged_0}
      (Waiting.next {s = sleeps_at blocked true} sleeping
        (Waiting.wakes 0 Waiting.flagged (Waiting.flag refl refl refl) refl refl))
      (Waiting.wakes 0 announced (Waiting.announce refl refl refl) refl refl)

no_lost_wakeup_example :
    (0 < announced_0.shared.sent) ⊎ Safety.Some Safety.is_active announced_0.threads
no_lost_wakeup_example = Safety.no_lost_wakeup announced_0-Reach refl (omega arith)
