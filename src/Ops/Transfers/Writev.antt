-- ===== src/Ops/Transfers/Writev.antt =====
-- `WritevOp` (op/writev.rs). The buffers are the regions of memory that their vectors point to.
use zincio.Prelude.{ℕ, Option, none, some, List, [], length, ◌∷◌, if◌then◌else◌}
use zincio.Executor.Join.{Poll}
use zincio.Io.Stream.{IoResult}
use zincio.Handles.{InnerRawHandle}
use zincio.Drivers.Slab.{Slab}
use zincio.Drivers.Uring.{Entry, Submitted, Completion, UringDriver}
use zincio.Ops.{poll_token, drop_op, answered, fits_u32}
use zincio.Ops.Entries.{sized_entry, IoVecs, writev}
use zincio.Ops.Buffers.{PollDriver, poll_result_or_wait, writable}

pub record WritevOp : Type 0 where
  pub handle : InnerRawHandle
  pub bufs : List ℕ
  pub completion_token : Option ℕ
  pub completion_system_iovecs : Option IoVecs

unfoldable pub new : InnerRawHandle → List ℕ → WritevOp
new handle bufs = record {
  handle = handle;
  bufs = bufs;
  completion_token = none;
  completion_system_iovecs = none;
}

-- The vectors of the entry: those of an earlier try, or new ones at `boxed`.
unfoldable pub system_iovecs : WritevOp → ℕ → IoVecs
system_iovecs op boxed = elim op.completion_system_iovecs [
  | some iovecs ↦ iovecs
  | none ↦ record { base = boxed; bufs = op.bufs }
]

unfoldable pub build_completion_entry : WritevOp → ℕ → ℕ → IoResult Entry
build_completion_entry op boxed user_data =
    sized_entry (length (system_iovecs op boxed).bufs)
      (λ len. writev op.handle.handle (system_iovecs op boxed) len) user_data

-- The operation after its entry was built, if it was; vectors that are too many are lost.
unfoldable pub keep_iovecs : WritevOp → ℕ → WritevOp
keep_iovecs op boxed = elim op.completion_token [
  | some token ↦ op
  | none ↦ record op {
    completion_system_iovecs =
        if fits_u32 (length (system_iovecs op boxed).bufs)
        then some (system_iovecs op boxed)
        else none;
  }
]

module _ {R C : Type 0} ⦃completions : Slab Completion C⦄ where
  unfoldable pub poll_completion :
      UringDriver R C
      → WritevOp
      → ℕ
      → Submitted
      → ℕ
      → UringDriver R C × WritevOp × Poll (IoResult ℕ)
  poll_completion u op boxed s waker =
      let (u', token, polled) =
        poll_token u op.completion_token (build_completion_entry op boxed) s waker in
      (u', record (keep_iovecs op boxed) { completion_token = token }, answered (λ n. n) polled)

  -- The vectors and the buffers are handed over.
  unfoldable pub drop : UringDriver R C → WritevOp → UringDriver R C
  drop u op =
      drop_op u op.completion_token
        (elim op.completion_system_iovecs [ some iovecs ↦ iovecs.base ∷ op.bufs | none ↦ op.bufs ])

  -- The operation ends without its buffers; the vectors are still handed over.
  unfoldable pub take_bufs : UringDriver R C → WritevOp → UringDriver R C × List ℕ
  take_bufs u op = (
    drop_op u op.completion_token
        (elim op.completion_system_iovecs [ some iovecs ↦ iovecs.base ∷ [] | none ↦ [] ]),
    op.bufs,
  )

module _ {D : Type 0} ⦃polls : PollDriver D⦄ where
  -- `result` is what the call of the system gives.
  unfoldable pub poll_poll : D → WritevOp → IoResult ℕ → ℕ → D × WritevOp × Poll (IoResult ℕ)
  poll_poll d op result waker =
      let (d', polled) = poll_result_or_wait result op.handle waker d writable in (d', op, polled)
