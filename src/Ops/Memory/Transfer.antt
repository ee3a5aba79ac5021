-- ===== src/Ops/Memory/Transfer.antt =====
-- The operations that move bytes through one buffer (zincio/src/op), as one type.
use zincio.Prelude.{ℕ, true, false, Bool, Option, [], ◌∷◌}
use zincio.Io.Stream.{unsupported, IoResult, err}
use zincio.Executor.Join.{Poll, ready}
use zincio.Drivers.Slab.{Slab}
use zincio.Drivers.Uring.{Submitted, Completion, UringDriver}
use zincio.Ops.Buffers.{IoBuf, IoBufMut, PollDriver, CompletionBuffer, as_ref}
use zincio.Ops.Transfers.Read.{ReadOp}
use zincio.Ops.Transfers.Read as Read
use zincio.Ops.Transfers.Write.{WriteOp}
use zincio.Ops.Transfers.Write as Write
use zincio.Ops.Transfers.ReadAt.{ReadAtOp}
use zincio.Ops.Transfers.ReadAt as ReadAt
use zincio.Ops.Transfers.WriteAt.{WriteAtOp}
use zincio.Ops.Transfers.WriteAt as WriteAt
use zincio.Ops.Transfers.Recv.{RecvOp}
use zincio.Ops.Transfers.Recv as Recv
use zincio.Ops.Transfers.Send.{SendOp}
use zincio.Ops.Transfers.Send as Send
use zincio.Ops.Memory.{LiveOp}

-- An operation with one buffer.
pub data Transfer (B : Type 0) : Type 0 where
  read_op : ReadOp B → Transfer B
  write_op : WriteOp B → Transfer B
  read_at_op : ReadAtOp B → Transfer B
  write_at_op : WriteAtOp B → Transfer B
  recv_op : RecvOp B → Transfer B
  send_op : SendOp B → Transfer B

module _ {B : Type 0} ⦃buffer : IoBuf B⦄ where
  -- The token and the memory of an operation.
  abbrev pub live_buf : Option ℕ → CompletionBuffer B → LiveOp
  live_buf token buf = record {
    completion_token = token;
    memory = buffer.as_buf_ptr (as_ref buf) ∷ [];
  }

  unfoldable pub live : Transfer B → LiveOp
  live (read_op op) = live_buf op.completion_token op.buf
  live (write_op op) = live_buf op.completion_token op.buf
  live (read_at_op op) = live_buf op.completion_token op.buf
  live (write_at_op op) = live_buf op.completion_token op.buf
  live (recv_op op) = live_buf op.completion_token op.buf
  live (send_op op) = live_buf op.completion_token op.buf

module _ {R C B : Type 0} ⦃completions : Slab Completion C⦄ ⦃buffer : IoBuf B⦄
    ⦃buffer_mut : IoBufMut B⦄ where
  -- What a poll leaves of the driver and of the operation.
  unfoldable pub poll_transfer :
      UringDriver R C
      → Transfer B
      → Submitted
      → ℕ
      → UringDriver R C × Transfer B × Poll (IoResult ℕ)
  poll_transfer u (read_op op) s waker =
      let (u', op', polled) = Read.poll_completion u op s waker in (u', read_op op', polled)
  poll_transfer u (write_op op) s waker =
      let (u', op', polled) = Write.poll_completion u op s waker in (u', write_op op', polled)
  poll_transfer u (read_at_op op) s waker =
      let (u', op', polled) = ReadAt.poll_completion u op s waker in (u', read_at_op op', polled)
  poll_transfer u (write_at_op op) s waker =
      let (u', op', polled) = WriteAt.poll_completion u op s waker in (u', write_at_op op', polled)
  poll_transfer u (recv_op op) s waker =
      let (u', op', polled) = Recv.poll_completion u op s waker in (u', recv_op op', polled)
  poll_transfer u (send_op op) s waker =
      let (u', op', polled) = Send.poll_completion u op s waker in (u', send_op op', polled)

module _ {R C B : Type 0} ⦃completions : Slab Completion C⦄ ⦃buffer : IoBuf B⦄ where
  unfoldable pub drop_transfer : UringDriver R C → Transfer B → UringDriver R C
  drop_transfer u (read_op op) = Read.drop u op
  drop_transfer u (write_op op) = Write.drop u op
  drop_transfer u (read_at_op op) = ReadAt.drop u op
  drop_transfer u (write_at_op op) = WriteAt.drop u op
  drop_transfer u (recv_op op) = Recv.drop u op
  drop_transfer u (send_op op) = Send.drop u op

module _ {D B : Type 0} ⦃polls : PollDriver D⦄ ⦃buffer : IoBufMut B⦄ where
  -- `poll_poll`; operations at an offset have that of the trait. `result` is what the call of the
  -- system gives.
  unfoldable pub poll_poll_transfer :
      D → Transfer B → IoResult ℕ → ℕ → D × Transfer B × Poll (IoResult ℕ)
  poll_poll_transfer d (read_op op) result waker =
      let (d', op', polled) = Read.poll_poll d op result waker in (d', read_op op', polled)
  poll_poll_transfer d (write_op op) result waker =
      let (d', op', polled) = Write.poll_poll d op result waker in (d', write_op op', polled)
  poll_poll_transfer d (recv_op op) result waker =
      let (d', op', polled) = Recv.poll_poll d op result waker in (d', recv_op op', polled)
  poll_poll_transfer d (send_op op) result waker =
      let (d', op', polled) = Send.poll_poll d op result waker in (d', send_op op', polled)
  poll_poll_transfer d (read_at_op op) result waker = (d, read_at_op op, ready (err unsupported))
  poll_poll_transfer d (write_at_op op) result waker = (d, write_at_op op, ready (err unsupported))

abbrev pub buffer_of : {B : Type 0} → Transfer B → CompletionBuffer B
buffer_of (read_op op) = op.buf
buffer_of (write_op op) = op.buf
buffer_of (read_at_op op) = op.buf
buffer_of (write_at_op op) = op.buf
buffer_of (recv_op op) = op.buf
buffer_of (send_op op) = op.buf

-- Whether an operation has a `poll_poll` of its own.
abbrev pub has_poll : {B : Type 0} → Transfer B → Bool
has_poll (read_at_op op) = false
has_poll (write_at_op op) = false
has_poll op = true
