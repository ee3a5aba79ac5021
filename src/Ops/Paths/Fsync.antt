-- ===== src/Ops/Paths/Fsync.antt =====
-- `FsyncOp` (op/fsync.rs).
use zincio.Prelude.{ℕ, Option, none, [], Bool}
use zincio.Executor.Join.{Poll}
use zincio.Io.Stream.{IoResult, ok}
use zincio.Drivers.Slab.{Slab}
use zincio.Drivers.Uring.{Entry, Submitted, Completion, UringDriver}
use zincio.Ops.{poll_token, drop_op, answered, unit_answer}
use zincio.Ops.Entries.{fsync, squeue_entry}

pub record FsyncOp : Type 0 where
  pub handle : ℕ
  pub data_only : Bool
  pub completion_token : Option ℕ

unfoldable pub new : ℕ → Bool → FsyncOp
new handle data_only = record { handle = handle; data_only = data_only; completion_token = none }

unfoldable pub build_completion_entry : FsyncOp → ℕ → IoResult Entry
build_completion_entry op user_data = ok (squeue_entry (fsync op.handle op.data_only) user_data)

module _ {R C : Type 0} ⦃completions : Slab Completion C⦄ where
  unfoldable pub poll_completion :
      UringDriver R C
      → FsyncOp
      → Submitted
      → ℕ
      → UringDriver R C × FsyncOp × Poll (IoResult (Unit {0}))
  poll_completion u op s waker =
      let (u', token, polled) =
        poll_token u op.completion_token (build_completion_entry op) s waker in
      (u', record op { completion_token = token }, answered unit_answer polled)

  -- Nothing is handed over but `()`.
  unfoldable pub drop : UringDriver R C → FsyncOp → UringDriver R C
  drop u op = drop_op u op.completion_token []
