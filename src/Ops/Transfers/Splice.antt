-- ===== src/Ops/Transfers/Splice.antt =====
-- `SpliceOp` (op/splice.rs).
use zincio.Prelude.{ℕ, Option, none, []}
use zincio.Executor.Join.{Poll}
use zincio.Io.Stream.{IoResult}
use zincio.Handles.{InnerRawHandle}
use zincio.Drivers.Slab.{Slab}
use zincio.Drivers.Uring.{Entry, Submitted, Completion, UringDriver}
use zincio.Ops.{poll_token, drop_op, answered}
use zincio.Ops.Entries.{sized_entry, splice}
use zincio.Ops.Buffers.{PollDriver, poll_result_or_wait, writable}

pub record SpliceOp : Type 0 where
  pub fd_in : ℕ
  pub fd_out : InnerRawHandle
  pub len : ℕ
  pub completion_token : Option ℕ

unfoldable pub new : ℕ → InnerRawHandle → ℕ → SpliceOp
new fd_in fd_out len = record { fd_in = fd_in; fd_out = fd_out; len = len; completion_token = none }

unfoldable pub build_completion_entry : SpliceOp → ℕ → IoResult Entry
build_completion_entry op user_data =
    sized_entry op.len (λ len. splice op.fd_in op.fd_out.handle len) user_data

module _ {R C : Type 0} ⦃completions : Slab Completion C⦄ where
  unfoldable pub poll_completion :
      UringDriver R C → SpliceOp → Submitted → ℕ → UringDriver R C × SpliceOp × Poll (IoResult ℕ)
  poll_completion u op s waker =
      let (u', token, polled) =
        poll_token u op.completion_token (build_completion_entry op) s waker in
      (u', record op { completion_token = token }, answered (λ n. n) polled)

  unfoldable pub drop : UringDriver R C → SpliceOp → UringDriver R C
  drop u op = drop_op u op.completion_token []

module _ {D : Type 0} ⦃polls : PollDriver D⦄ where
  -- `result` is what the call of the system gives.
  unfoldable pub poll_poll : D → SpliceOp → IoResult ℕ → ℕ → D × SpliceOp × Poll (IoResult ℕ)
  poll_poll d op result waker =
      let (d', polled) = poll_result_or_wait result op.fd_out waker d writable in (d', op, polled)
