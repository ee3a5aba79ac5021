-- ===== src/Drivers/Uring/Queue.antt =====
-- `drain_cq` of `UringDriver`: each entry of the completion queue goes to the interrupt, the
-- timeout, a poll or a completion, by its key.
use zincio.Prelude.{ℕ, ◌++◌, Bool, true, ◌||◌, List, [], ◌∷◌, ◌==◌, if◌then◌else◌}
use zincio.Executor.Join.{to_wake}
use zincio.Drivers.Slab.{Slab}
use zincio.Drivers.Uring.{
  poll_read_key_kind, poll_write_key_kind, interrupt_key, timeout_key, decode_token,
  decode_key_kind, CompletionResult, Completion, HandleRegistration, UringDriver, drain_completion,
}
use zincio.Drivers.Uring.Polls.{drain_poll}

pub record CompletionEntry : Type 0 where
  pub user_data : ℕ
  pub result : CompletionResult

-- The driver, the wakers in the order in which they are called, and whether the task was interrupted.
pub record Drained (R C : Type 0) : Type 0 where
  pub driver : UringDriver R C
  pub wakers : List ℕ
  pub interrupt : Bool

module _ {R C : Type 0} ⦃registrations : Slab HandleRegistration R⦄
    ⦃completions : Slab Completion C⦄ where
  unfoldable pub drain_entry : Drained R C → CompletionEntry → Drained R C
  drain_entry d e =
      if e.user_data == interrupt_key
      then record d { interrupt = true }
      else if e.user_data == timeout_key
      then d
      else if decode_key_kind e.user_data == poll_read_key_kind
          || decode_key_kind e.user_data == poll_write_key_kind
      then (let (rs, waiter) =
            drain_poll d.driver.registrations (decode_token e.user_data)
              (decode_key_kind e.user_data == poll_write_key_kind) in
          record d {
            driver = record d.driver { registrations = rs };
            wakers = d.wakers ++ to_wake waiter;
          })
      else (let (cs, waiter) =
            drain_completion d.driver.completions (decode_token e.user_data) e.result in
          record d {
            driver = record d.driver { completions = cs };
            wakers = d.wakers ++ to_wake waiter;
          })

  unfoldable pub drain_cq : Drained R C → List CompletionEntry → Drained R C
  drain_cq d [] = d
  drain_cq d (e ∷ es) = drain_cq (drain_entry d e) es
