-- ===== src/Ops/Paths/Rename.antt =====
-- `RenameOp` (op/rename.rs). A path is the region of memory that its `CString` is in.
use zincio.Prelude.{ℕ, Option, none, []}
use zincio.Executor.Join.{Poll}
use zincio.Io.Stream.{IoResult, ok}
use zincio.Drivers.Slab.{Slab}
use zincio.Drivers.Uring.{Entry, Submitted, Completion, UringDriver}
use zincio.Ops.{poll_token, drop_op, answered, unit_answer}
use zincio.Ops.Entries.{rename_at, squeue_entry}

pub record RenameOp : Type 0 where
  pub old_path : ℕ
  pub new_path : ℕ
  pub completion_token : Option ℕ

unfoldable pub new : ℕ → ℕ → RenameOp
new old_path new_path = record { old_path = old_path; new_path = new_path; completion_token = none }

unfoldable pub build_completion_entry : RenameOp → ℕ → IoResult Entry
build_completion_entry op user_data =
    ok (squeue_entry (rename_at op.old_path op.new_path) user_data)

module _ {R C : Type 0} ⦃completions : Slab Completion C⦄ where
  unfoldable pub poll_completion :
      UringDriver R C
      → RenameOp
      → Submitted
      → ℕ
      → UringDriver R C × RenameOp × Poll (IoResult (Unit {0}))
  poll_completion u op s waker =
      let (u', token, polled) =
        poll_token u op.completion_token (build_completion_entry op) s waker in
      (u', record op { completion_token = token }, answered unit_answer polled)

  -- Nothing is handed over but `()`.
  unfoldable pub drop : UringDriver R C → RenameOp → UringDriver R C
  drop u op = drop_op u op.completion_token []
