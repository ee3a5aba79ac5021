-- ===== src/Ops/Transfers/Recv.antt =====
-- `RecvOp` (op/recv.rs).
use zincio.Prelude.{ℕ, Option, none, [], ◌∷◌, Bool, true, false, if◌then◌else◌}
use zincio.Executor.Join.{Poll}
use zincio.Io.Stream.{IoResult}
use zincio.Handles.{InnerRawHandle}
use zincio.Drivers.Slab.{Slab}
use zincio.Drivers.Uring.{Entry, Submitted, Completion, UringDriver}
use zincio.Ops.{poll_token, drop_op, answered}
use zincio.Ops.Entries.{msg_peek, sized_entry, recv}
use zincio.Ops.Buffers.{
  IoBuf, IoBufMut, CompletionBuffer, new_buffer, as_ref, into_inner, uses_completion, init_token,
  init_poll, PollDriver, poll_result_or_wait, readable,
}

pub record RecvOp (B : Type 0) : Type 0 where
  pub handle : InnerRawHandle
  pub buf : CompletionBuffer B
  pub peek : Bool
  pub completion_token : Option ℕ

module _ {B : Type 0} ⦃buffer : IoBuf B⦄ where
  unfoldable pub new : InnerRawHandle → B → RecvOp B
  new handle buf = record {
    handle = handle;
    buf = new_buffer buf (uses_completion handle);
    peek = false;
    completion_token = none;
  }

  unfoldable pub new_peek : InnerRawHandle → B → RecvOp B
  new_peek handle buf = record {
    handle = handle;
    buf = new_buffer buf (uses_completion handle);
    peek = true;
    completion_token = none;
  }

  unfoldable pub build_completion_entry : RecvOp B → ℕ → IoResult Entry
  build_completion_entry op user_data =
      sized_entry (buffer.buf_capacity (as_ref op.buf))
        (λ len.
          recv op.handle.handle (buffer.as_buf_ptr (as_ref op.buf)) len
            (if op.peek then msg_peek else 0))
        user_data

module _ {R C B : Type 0} ⦃completions : Slab Completion C⦄ ⦃buffer : IoBuf B⦄
    ⦃buffer_mut : IoBufMut B⦄ where
  unfoldable pub poll_completion :
      UringDriver R C → RecvOp B → Submitted → ℕ → UringDriver R C × RecvOp B × Poll (IoResult ℕ)
  poll_completion u op s waker =
      let (u', token, polled) =
        poll_token u op.completion_token (build_completion_entry op) s waker in
      (
        u',
        record op { buf = init_token op.buf polled; completion_token = token },
        answered (λ n. n) polled,
      )

module _ {R C B : Type 0} ⦃completions : Slab Completion C⦄ ⦃buffer : IoBuf B⦄ where
  -- The buffer is handed over.
  unfoldable pub drop : UringDriver R C → RecvOp B → UringDriver R C
  drop u op = drop_op u op.completion_token (buffer.as_buf_ptr (as_ref op.buf) ∷ [])

module _ {R C B : Type 0} ⦃completions : Slab Completion C⦄ where
  -- The operation ends without its buffer, so that nothing is left to hand over.
  unfoldable pub take_bufs : UringDriver R C → RecvOp B → UringDriver R C × B
  take_bufs u op = (drop_op u op.completion_token [], into_inner op.buf)

module _ {D B : Type 0} ⦃polls : PollDriver D⦄ ⦃buffer : IoBufMut B⦄ where
  -- `result` is what the call of the system gives.
  unfoldable pub poll_poll : D → RecvOp B → IoResult ℕ → ℕ → D × RecvOp B × Poll (IoResult ℕ)
  poll_poll d op result waker =
      let (d', polled) = poll_result_or_wait result op.handle waker d readable in
      (d', record op { buf = init_poll op.buf polled }, polled)
