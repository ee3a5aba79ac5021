-- ===== src/Ops/Paths/Open.antt =====
-- `OpenOp` (op/open.rs). A path is the region of memory that its `CString` is in.
use zincio.Prelude.{ℕ, Option, none, []}
use zincio.Executor.Join.{Poll}
use zincio.Io.Stream.{IoResult, ok}
use zincio.Drivers.Slab.{Slab}
use zincio.Drivers.Uring.{Entry, Submitted, Completion, UringDriver}
use zincio.Ops.{poll_token, drop_op, answered}
use zincio.Ops.Entries.{open_at, squeue_entry}

pub record OpenOp : Type 0 where
  pub path : ℕ
  pub flags : ℕ
  pub mode : ℕ
  pub completion_token : Option ℕ

unfoldable pub new : ℕ → ℕ → ℕ → OpenOp
new path flags mode = record { path = path; flags = flags; mode = mode; completion_token = none }

unfoldable pub build_completion_entry : OpenOp → ℕ → IoResult Entry
build_completion_entry op user_data = ok (squeue_entry (open_at op.path op.flags op.mode) user_data)

module _ {R C : Type 0} ⦃completions : Slab Completion C⦄ where
  unfoldable pub poll_completion :
      UringDriver R C → OpenOp → Submitted → ℕ → UringDriver R C × OpenOp × Poll (IoResult (ℕ))
  poll_completion u op s waker =
      let (u', token, polled) =
        poll_token u op.completion_token (build_completion_entry op) s waker in
      (u', record op { completion_token = token }, answered (λ n. n) polled)

  -- Nothing is handed over but `()`.
  unfoldable pub drop : UringDriver R C → OpenOp → UringDriver R C
  drop u op = drop_op u op.completion_token []
