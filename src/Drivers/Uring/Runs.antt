-- ===== src/Drivers/Uring/Runs.antt =====
-- The states that `UringDriver` reaches by the calls of the runtime, of handles and of operations,
-- on a kernel that takes the timeout of a wait as an argument (`ext_arg`).
pub mod Pushes
pub mod Drains
pub mod Waking
use zincio.Prelude.{ℕ, ◌-◌, ◌<◌, ◌≡◌, ◌⊎◌, ◌^◌, Bool, true, false, Option, some, List, [], In, none}
use zincio.Io.Stream.{IoResult}
use zincio.Handles.{RegistrationMode}
use zincio.Drivers.Slab.{Slab}
use zincio.Drivers.Uring.{
  Entry, Submitted, UringDriver, HandleRegistration, Completion, submit_completion,
  get_completion_result, set_completion_waker, ignore_completion,
}
use zincio.Drivers.Uring.Queue.{CompletionEntry}
use zincio.Drivers.Uring.Polls.{Interest, register_handle_with_mode, deregister_handle, submit_poll}
use zincio.Drivers.Uring.Collect.{Calls, Collected, submit_interrupt, flush, wait}

-- No entry in flight is lost: it stays outstanding, or its completion is in the queue.
abbrev pub IsComplete : List Entry → Calls → Type 0
IsComplete es calls =
    (e : Entry)
    → In e es
    → In e calls.outstanding
      ⊎ ((c : CompletionEntry) × In c calls.completed × (c.user_data ≡ e.user_data))

module _ {R C : Type 0} ⦃registrations : Slab HandleRegistration R⦄
    ⦃completions : Slab Completion C⦄ where
  pub data DriverStep (u v : UringDriver R C) : Type 0 where
    registers :
        (fd : ℕ) (mode : RegistrationMode)
        → registrations.next_key u.registrations < 2 ^ 62 - 1
        → v ≡ (register_handle_with_mode u fd mode).0
        → DriverStep u v
    deregisters : (token : ℕ) → v ≡ (deregister_handle u token).0 → DriverStep u v
    polls :
        (token waker : ℕ) (interest : Interest) (s : Submitted)
        → v ≡ (submit_poll u token waker interest s).0
        → DriverStep u v
    submits :
        (build : ℕ → IoResult Entry) (s : Submitted) (waker : ℕ)
        → v ≡ (submit_completion u build s waker).0
        → DriverStep u v
    takes : (token : ℕ) → v ≡ (get_completion_result u token).0 → DriverStep u v
    sets : (token waker : ℕ) → v ≡ set_completion_waker u token waker → DriverStep u v
    ignores : (token : ℕ) (memory : List ℕ) → v ≡ ignore_completion u token memory → DriverStep u v
    flushes :
        (calls : Calls) (c : Collected R C)
        → IsComplete u.ring.outstanding calls
        → flush u true calls ≡ some c
        → v ≡ c.driver
        → DriverStep u v
    waits :
        (timeout : Bool) (calls : Calls) (c : Collected R C)
        → IsComplete u.ring.outstanding calls
        → wait u true timeout calls ≡ some c
        → v ≡ c.driver
        → DriverStep u v

  -- `UringDriver::new`, once the ring is built.
  unfoldable pub new : ℕ → Submitted → Option (UringDriver R C)
  new entries s =
      elim (submit_interrupt
        (record {
          outstanding = [];
          unsubmitted = 0;
          entries = entries;
          pending_submissions = false;
        })
        s) [
          | none ↦ none
          | some r ↦ some (record {
            ring = r;
            registrations = registrations.new;
            completions = completions.new;
          })
        ]

  pub data DriverReach : UringDriver R C → Type 0 where
    starts :
        (u : UringDriver R C) (entries : ℕ) (s : Submitted) → new entries s ≡ some u → DriverReach u
    next : {u v : UringDriver R C} → DriverReach u → DriverStep u v → DriverReach v
