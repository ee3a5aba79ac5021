-- ===== src/Ops/Paths/Statx.antt =====
-- `StatxOp` (op/statx.rs). The path and the buffer are the regions of memory that they are in.
use zincio.Prelude.{ℕ, Option, none, some, [], ◌∷◌}
use zincio.Executor.Join.{Poll}
use zincio.Io.Stream.{IoResult, ok}
use zincio.Drivers.Slab.{Slab}
use zincio.Drivers.Uring.{done, Entry, Submitted, Completion, UringDriver}
use zincio.Ops.{TokenPoll, gives, poll_token, drop_op, answered}
use zincio.Ops.Entries.{statx, squeue_entry}

pub record StatxOp : Type 0 where
  pub dirfd : ℕ
  pub pathname : ℕ
  pub flags : ℕ
  pub mask : ℕ
  pub statxbuf : Option ℕ
  pub completion_token : Option ℕ

unfoldable pub new : ℕ → ℕ → ℕ → ℕ → StatxOp
new dirfd pathname flags mask = record {
  dirfd = dirfd;
  pathname = pathname;
  flags = flags;
  mask = mask;
  statxbuf = none;
  completion_token = none;
}

-- The buffer of the entry: that of an earlier try, or a new one at `boxed`.
unfoldable pub statx_buffer : StatxOp → ℕ → ℕ
statx_buffer op boxed = elim op.statxbuf [ some statxbuf ↦ statxbuf | none ↦ boxed ]

unfoldable pub build_completion_entry : StatxOp → ℕ → ℕ → IoResult Entry
build_completion_entry op boxed user_data =
    ok
      (squeue_entry (statx op.dirfd op.pathname (statx_buffer op boxed) op.flags op.mask) user_data)

-- The operation after its entry was built, if it was; the buffer is taken with a result.
unfoldable pub keep_buffer : StatxOp → ℕ → TokenPoll → StatxOp
keep_buffer op boxed (gives (done n)) = record op { statxbuf = none }
keep_buffer op boxed polled = elim op.completion_token [
  | some token ↦ op
  | none ↦ record op { statxbuf = some (statx_buffer op boxed) }
]

module _ {R C : Type 0} ⦃completions : Slab Completion C⦄ where
  -- The answer is the buffer that the kernel has filled.
  unfoldable pub poll_completion :
      UringDriver R C → StatxOp → ℕ → Submitted → ℕ → UringDriver R C × StatxOp × Poll (IoResult ℕ)
  poll_completion u op boxed s waker =
      let (u', token, polled) =
        poll_token u op.completion_token (build_completion_entry op boxed) s waker in
      (
        u',
        record (keep_buffer op boxed polled) { completion_token = token },
        answered (λ n. statx_buffer op boxed) polled,
      )

  -- The buffer is handed over, and the path is not.
  unfoldable pub drop : UringDriver R C → StatxOp → UringDriver R C
  drop u op =
      drop_op u op.completion_token (elim op.statxbuf [ some statxbuf ↦ statxbuf ∷ [] | none ↦ [] ])
