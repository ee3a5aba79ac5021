-- ===== src/Ops/Memory/Modes.antt =====
-- The two ways of an operation that moves bytes: polls of the system's calls, and completions.
use zincio.Prelude.{ℕ, ◌≡◌}
use zincio.Executor.Join.{Poll, ready}
use zincio.Io.Stream.{would_block, IoResult, ok, err}
use zincio.Drivers.Slab.{Slab}
use zincio.Drivers.Uring.{Submitted, Completion, CompletionResult, done, failed, UringDriver}
use zincio.Handles.{InnerRawHandle}
use zincio.Ops.{TokenPoll, from_raw_os_error}
use zincio.Ops.Buffers.{
  IoBuf, IoBufMut, CompletionBuffer, Side, readable, writable, wait_for, PollDriver, init_token,
  init_poll,
}
use zincio.Ops.Transfers.Read as Read
use zincio.Ops.Transfers.Write as Write
use zincio.Ops.Transfers.ReadAt as ReadAt
use zincio.Ops.Transfers.WriteAt as WriteAt
use zincio.Ops.Transfers.Recv as Recv
use zincio.Ops.Transfers.Send as Send
use zincio.Ops.Memory.Transfer.{
  Transfer, read_op, write_op, read_at_op, write_at_op, recv_op, send_op, poll_transfer,
  poll_poll_transfer, buffer_of,
}

-- What the call of the system gives where the completion has that result.
abbrev pub as_result : CompletionResult → IoResult ℕ
as_result (done n) = ok n
as_result (failed n) = err (from_raw_os_error n)

module _ {B : Type 0} where
  abbrev pub handle_of : Transfer B → InnerRawHandle
  handle_of (read_op op) = op.handle
  handle_of (write_op op) = op.handle
  handle_of (read_at_op op) = op.handle
  handle_of (write_at_op op) = op.handle
  handle_of (recv_op op) = op.handle
  handle_of (send_op op) = op.handle

  -- The side of its handle that an operation waits for.
  abbrev pub side_of : Transfer B → Side
  side_of (read_op op) = readable
  side_of (read_at_op op) = readable
  side_of (recv_op op) = readable
  side_of (write_op op) = writable
  side_of (write_at_op op) = writable
  side_of (send_op op) = writable

module _ {B : Type 0} ⦃buffer_mut : IoBufMut B⦄ where
  -- The buffer of an operation that is answered: a read sets how many bytes it has.
  abbrev filled : Transfer B → TokenPoll → CompletionBuffer B
  filled (read_op op) polled = init_token op.buf polled
  filled (read_at_op op) polled = init_token op.buf polled
  filled (recv_op op) polled = init_token op.buf polled
  filled op polled = buffer_of op

  abbrev poll_filled : Transfer B → Poll (IoResult ℕ) → CompletionBuffer B
  poll_filled (read_op op) polled = init_poll op.buf polled
  poll_filled (recv_op op) polled = init_poll op.buf polled
  poll_filled op polled = buffer_of op

module _ {R C D B : Type 0} ⦃completions : Slab Completion C⦄ ⦃polls : PollDriver D⦄
    ⦃buffer : IoBuf B⦄ ⦃buffer_mut : IoBufMut B⦄ where
  abbrev pub AnswersAlike :
      UringDriver R C → D → Transfer B → Submitted → ℕ → CompletionResult → Type 0
  AnswersAlike u d op s waker r =
      ((poll_transfer u op s waker).2 ≡ (poll_poll_transfer d op (as_result r) waker).2)
      × (buffer_of (poll_transfer u op s waker).1
          ≡ buffer_of (poll_poll_transfer d op (as_result r) waker).1)

  -- The completion is answered with the error, where the poll waits with the driver.
  abbrev pub WaitsInstead :
      UringDriver R C → D → Transfer B → Submitted → ℕ → CompletionResult → Type 0
  WaitsInstead u d op s waker r =
      ((poll_transfer u op s waker).2 ≡ ready (err would_block))
      × ((poll_poll_transfer d op (as_result r) waker).2
          ≡ (wait_for d (handle_of op) waker (side_of op)).1)
