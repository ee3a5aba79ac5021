-- ===== src/Ops/Paths/MkDir.antt =====
-- `MkDirOp` (op/mkdir.rs). A path is the region of memory that its `CString` is in.
use zincio.Prelude.{ℕ, Option, none, []}
use zincio.Executor.Join.{Poll}
use zincio.Io.Stream.{IoResult, ok}
use zincio.Drivers.Slab.{Slab}
use zincio.Drivers.Uring.{Entry, Submitted, Completion, UringDriver}
use zincio.Ops.{poll_token, drop_op, answered, unit_answer}
use zincio.Ops.Entries.{mkdir_at, squeue_entry}

pub record MkDirOp : Type 0 where
  pub path : ℕ
  pub mode : ℕ
  pub completion_token : Option ℕ

unfoldable pub new : ℕ → ℕ → MkDirOp
new path mode = record { path = path; mode = mode; completion_token = none }

unfoldable pub build_completion_entry : MkDirOp → ℕ → IoResult Entry
build_completion_entry op user_data = ok (squeue_entry (mkdir_at op.path op.mode) user_data)

module _ {R C : Type 0} ⦃completions : Slab Completion C⦄ where
  unfoldable pub poll_completion :
      UringDriver R C
      → MkDirOp
      → Submitted
      → ℕ
      → UringDriver R C × MkDirOp × Poll (IoResult (Unit {0}))
  poll_completion u op s waker =
      let (u', token, polled) =
        poll_token u op.completion_token (build_completion_entry op) s waker in
      (u', record op { completion_token = token }, answered unit_answer polled)

  -- Nothing is handed over but `()`.
  unfoldable pub drop : UringDriver R C → MkDirOp → UringDriver R C
  drop u op = drop_op u op.completion_token []
