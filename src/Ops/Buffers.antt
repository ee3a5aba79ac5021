-- ===== src/Ops/Buffers.antt =====
-- op/io_util.rs: the buffer that an operation keeps, and what a poll of the system's calls gives.
use zincio.Prelude.{ℕ, Bool, ◌&&◌, if◌then◌else◌}
use zincio.Executor.Join.{Poll, ready, pending}
use zincio.Io.Stream.{would_block, IoResult, ok, err}
use zincio.Handles.{InnerRawHandle, is_completion}
use zincio.Drivers.Uring.{done}
use zincio.Ops.{TokenPoll, gives}

-- The traits of io/buf.rs; the pointer names the region of memory that the bytes are in.
pub record IoBuf (B : Type 0) : Type 0 where
  pub as_buf_ptr : B → ℕ
  pub buf_len : B → ℕ
  pub buf_capacity : B → ℕ
  pub would_box : B → Bool

pub record IoBufMut (B : Type 0) : Type 0 where
  pub set_buf_init : B → ℕ → B

pub data CompletionBuffer (B : Type 0) : Type 0 where
  inline boxed : B → CompletionBuffer B

unfoldable pub new_buffer : {B : Type 0} ⦃buffer : IoBuf B⦄ → B → Bool → CompletionBuffer B
new_buffer ⦃buffer⦄ buf stable = if stable && buffer.would_box buf then boxed buf else inline buf

unfoldable pub as_ref : {B : Type 0} → CompletionBuffer B → B
as_ref (inline buf) = buf
as_ref (boxed buf) = buf

-- A write through `as_mut`.
unfoldable pub update : {B : Type 0} → CompletionBuffer B → (B → B) → CompletionBuffer B
update (inline buf) f = inline (f buf)
update (boxed buf) f = boxed (f buf)

unfoldable pub into_inner : {B : Type 0} → CompletionBuffer B → B
into_inner (inline buf) = buf
into_inner (boxed buf) = buf

abbrev pub uses_completion : InnerRawHandle → Bool
uses_completion h = is_completion h.mode

-- `set_buf_init` where a read of that many bytes is answered.
unfoldable pub init_token :
    {B : Type 0} ⦃buffer : IoBufMut B⦄ → CompletionBuffer B → TokenPoll → CompletionBuffer B
init_token ⦃buffer⦄ buf (gives (done n)) = update buf (λ b. buffer.set_buf_init b n)
init_token ⦃buffer⦄ buf polled = buf

unfoldable pub init_poll :
    {B : Type 0} ⦃buffer : IoBufMut B⦄ → CompletionBuffer B → Poll (IoResult ℕ) → CompletionBuffer B
init_poll ⦃buffer⦄ buf (ready (ok n)) = update buf (λ b. buffer.set_buf_init b n)
init_poll ⦃buffer⦄ buf polled = buf

-- `Interest::READABLE` and `Interest::WRITABLE`, as far as operations use them.
pub data Side : Type 0 where
  readable writable : Side

-- `submit_poll` of a driver: the driver is asked to wake `waker` for that side of the handle.
pub record PollDriver (D : Type 0) : Type 0 where
  pub submit_poll : D → InnerRawHandle → ℕ → Side → D × IoResult (Unit {0})

module _ {D : Type 0} ⦃polls : PollDriver D⦄ where
  unfoldable pub wait_for : D → InnerRawHandle → ℕ → Side → D × Poll (IoResult ℕ)
  wait_for d handle waker interest =
      let (d', submitted) = polls.submit_poll d handle waker interest in
      elim submitted [ err e ↦ (d', ready (err e)) | ok u ↦ (d', pending) ]

  unfoldable pub poll_result_or_wait :
      IoResult ℕ → InnerRawHandle → ℕ → D → Side → D × Poll (IoResult ℕ)
  poll_result_or_wait (ok value) handle waker d interest = (d, ready (ok value))
  poll_result_or_wait (err would_block) handle waker d interest = wait_for d handle waker interest
  poll_result_or_wait (err e) handle waker d interest = (d, ready (err e))
