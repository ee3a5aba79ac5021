-- ===== src/Ops/Paths/Unlink.antt =====
-- `UnlinkOp` (op/unlink.rs). A path is the region of memory that its `CString` is in.
use zincio.Prelude.{ℕ, Option, none, [], Bool, if◌then◌else◌}
use zincio.Executor.Join.{Poll}
use zincio.Io.Stream.{IoResult, ok}
use zincio.Drivers.Slab.{Slab}
use zincio.Drivers.Uring.{Entry, Submitted, Completion, UringDriver}
use zincio.Ops.{poll_token, drop_op, answered, unit_answer}
use zincio.Ops.Entries.{at_removedir, unlink_at, squeue_entry}

pub record UnlinkOp : Type 0 where
  pub path : ℕ
  pub is_dir : Bool
  pub completion_token : Option ℕ

unfoldable pub new : ℕ → Bool → UnlinkOp
new path is_dir = record { path = path; is_dir = is_dir; completion_token = none }

unfoldable pub build_completion_entry : UnlinkOp → ℕ → IoResult Entry
build_completion_entry op user_data =
    ok (squeue_entry (unlink_at op.path (if op.is_dir then at_removedir else 0)) user_data)

module _ {R C : Type 0} ⦃completions : Slab Completion C⦄ where
  unfoldable pub poll_completion :
      UringDriver R C
      → UnlinkOp
      → Submitted
      → ℕ
      → UringDriver R C × UnlinkOp × Poll (IoResult (Unit {0}))
  poll_completion u op s waker =
      let (u', token, polled) =
        poll_token u op.completion_token (build_completion_entry op) s waker in
      (u', record op { completion_token = token }, answered unit_answer polled)

  -- Nothing is handed over but `()`.
  unfoldable pub drop : UringDriver R C → UnlinkOp → UringDriver R C
  drop u op = drop_op u op.completion_token []
