-- ===== src/Ops.antt =====
-- zincio/src/op over `UringDriver`: the polling of an operation through its completion token, which
-- all operations share, and what an operation leaves with the driver when it is dropped.
pub mod Entries
pub mod Buffers
pub mod Paths
pub mod Transfers
pub mod Memory
mod Tests
use zincio.Prelude.{ℕ, ◌^◌, Bool, Option, none, some, List, ltb, ◌==◌, if◌then◌else◌}
use zincio.Executor.Join.{Poll, ready, pending}
use zincio.Io.Stream.{IoError, would_block, other, IoResult, ok, err}
use zincio.Drivers.Slab.{Slab}
use zincio.Drivers.Uring.{
  Entry, Submitted, Completion, CompletionResult, UringDriver, CompletionIoResult, immediate, retry,
  done, failed, submit_err, submit_completion, get_completion_result, set_completion_waker,
  ignore_completion,
}

-- The first half of a `poll_completion`: the operation waits, fails, or has a result.
pub data TokenPoll : Type 0 where
  waits : TokenPoll
  fails : IoError → TokenPoll
  gives : CompletionResult → TokenPoll

module _ {R C : Type 0} ⦃completions : Slab Completion C⦄ where
  -- A poll of an operation that was submitted.
  unfoldable pub poll_submitted : UringDriver R C → ℕ → ℕ → UringDriver R C × Option ℕ × TokenPoll
  poll_submitted u token waker =
      let (u', completed) = get_completion_result u token in
      elim completed [
        | some result ↦ (u', none, gives result)
        | none ↦ (set_completion_waker u token waker, some token, waits)
      ]

  -- A poll of one that was not.
  unfoldable pub poll_unsubmitted :
      UringDriver R C
      → (ℕ → IoResult Entry)
      → Submitted
      → ℕ
      → UringDriver R C × Option ℕ × TokenPoll
  poll_unsubmitted u build s waker =
      let (u', answer) = submit_completion u build s waker in
      elim answer [
        | immediate result ↦ (u', none, gives result)
        | retry token ↦ (u', some token, waits)
        | submit_err e ↦ (u', none, fails e)
      ]

  unfoldable pub poll_token :
      UringDriver R C
      → Option ℕ
      → (ℕ → IoResult Entry)
      → Submitted
      → ℕ
      → UringDriver R C × Option ℕ × TokenPoll
  poll_token u completion_token build s waker = elim completion_token [
    | some token ↦ poll_submitted u token waker
    | none ↦ poll_unsubmitted u build s waker
  ]

  -- `Drop`, inside of a runtime, with the memory that the operation hands over.
  unfoldable pub drop_op : UringDriver R C → Option ℕ → List ℕ → UringDriver R C
  drop_op u completion_token memory = elim completion_token [
    | some token ↦ ignore_completion u token memory
    | none ↦ u
  ]

-- `EAGAIN`.
abbrev pub eagain : ℕ
eagain = 11

-- `io::Error::from_raw_os_error`, by the one kind that operations test for.
unfoldable pub from_raw_os_error : ℕ → IoError
from_raw_os_error n = if n == eagain then would_block else other n

-- What a `poll_completion` gives, with the value that it makes of a result that is not negative.
unfoldable pub answered : {A : Type 0} → (ℕ → A) → TokenPoll → Poll (IoResult A)
answered f waits = pending
answered f (fails e) = ready (err e)
answered f (gives (done n)) = ready (ok (f n))
answered f (gives (failed n)) = ready (err (from_raw_os_error n))

abbrev pub unit_answer : ℕ → Unit {0}
unit_answer n = tt

-- `u32::try_from`, and an entry for that length.
abbrev pub fits_u32 : ℕ → Bool
fits_u32 n = ltb n (2 ^ 32)
