-- ===== src/Ops/Memory/Refines.antt =====
-- The operations that move bytes through one buffer, as operations of the system whose memory in
-- flight is held: what they poll and what they leave when they are dropped.
use zincio.Prelude.{
  ℕ, ◌<◌, ◌≡◌, ◌^◌, refl, ap, ◌∙◌, true, false, Option, none, some, List, [], ◌∷◌, inl, inr,
  Bool-cases,
}
use zincio.Io.Stream.{IoError, invalid_input, IoResult, ok}
use zincio.Drivers.Slab.{Slab}
use zincio.Drivers.Uring.{Entry, Submitted, Completion, done, failed, HandleRegistration}
use zincio.Ops.{TokenPoll, waits, fails, gives, poll_token, fits_u32}
use zincio.Ops.Entries.{Opcode, pointers, sized_entry, squeue_entry}
use zincio.Ops.Buffers.{
  IoBuf, IoBufMut, CompletionBuffer, inline, boxed, as_ref, update, init_token,
}
use zincio.Ops.Transfers.Read.{ReadOp}
use zincio.Ops.Transfers.Read as Read
use zincio.Ops.Transfers.Write.{WriteOp}
use zincio.Ops.Transfers.Write as Write
use zincio.Ops.Transfers.ReadAt.{ReadAtOp}
use zincio.Ops.Transfers.ReadAt as ReadAt
use zincio.Ops.Transfers.WriteAt.{WriteAtOp}
use zincio.Ops.Transfers.WriteAt as WriteAt
use zincio.Ops.Transfers.Recv.{RecvOp}
use zincio.Ops.Transfers.Recv as Recv
use zincio.Ops.Transfers.Send.{SendOp}
use zincio.Ops.Transfers.Send as Send
use zincio.Ops.Memory.{LiveOp, build_entry, System, set_op, Step, polls, drops}
use zincio.Ops.Memory.Transfer.{
  Transfer, read_op, write_op, read_at_op, write_at_op, recv_op, send_op, live, live_buf,
  poll_transfer, drop_transfer,
}

abbrev pub all : List ℕ → List ℕ
all memory = memory

-- Building an entry for a length gives the memory of the operation, or refuses.
sized_at :
    (len : ℕ) (opcode : ℕ → Opcode) (op : LiveOp) (key : ℕ)
    → fits_u32 len ≡ true
    → pointers (opcode len) ≡ op.memory
    → sized_entry len opcode key ≡ build_entry op none key
unfolding sized_entry build_entry squeue_entry
sized_at len opcode op key fits same =
    rw fits (ap (λ m. ok (record { user_data = key; memory = m })) same)

refused_at :
    (len : ℕ) (opcode : ℕ → Opcode) (op : LiveOp) (key : ℕ)
    → fits_u32 len ≡ false
    → sized_entry len opcode key ≡ build_entry op (some invalid_input) key
unfolding sized_entry build_entry
refused_at len opcode op key large = rw large refl

sized-built :
    (len : ℕ) (opcode : ℕ → Opcode) (op : LiveOp)
    → ((n : ℕ) → pointers (opcode n) ≡ op.memory)
    → (refused : Option IoError) × (sized_entry len opcode ≡ build_entry op refused)
sized-built len opcode op same = elim (Bool-cases (fits_u32 len)) [
  | inl fits ↦ (none, λ i key. sized_at len opcode op key fits (same len) i)
  | inr large ↦ (some invalid_input, λ i key. refused_at len opcode op key large i)
]

module _ {R C : Type 0} ⦃registrations : Slab HandleRegistration R⦄
    ⦃completions : Slab Completion C⦄ where
  polled-Step :
      (s : System R C) (i : ℕ) (op op' : LiveOp) (build : ℕ → IoResult Entry) (answer : Submitted)
      (waker : ℕ)
      → s.ops i ≡ some op
      → completions.next_key s.driver.completions < 2 ^ 62
      → ((refused : Option IoError) × (build ≡ build_entry op refused))
      → op' ≡ record op {
        completion_token = (poll_token s.driver op.completion_token build answer waker).1;
      }
      → Step all s (record {
        driver = (poll_token s.driver op.completion_token build answer waker).0;
        ops = set_op s.ops i (some op');
      })
  polled-Step s i op op' build answer waker found small (refused, built) same =
      polls i op refused answer waker found small (
        ap
          (λ x. record {
            driver = (poll_token s.driver op.completion_token build answer waker).0;
            ops = set_op s.ops i (some x);
          })
          same
        ∙ ap
            (λ b. record {
              driver = (poll_token s.driver op.completion_token b answer waker).0;
              ops = set_op s.ops i (
                  some (record op {
                    completion_token = (poll_token s.driver op.completion_token b answer waker).1;
                  }));
            })
            built)

module _ {B : Type 0} ⦃buffer : IoBuf B⦄ ⦃buffer_mut : IoBufMut B⦄
    (stays : (b : B) (n : ℕ)
      → buffer.as_buf_ptr (buffer_mut.set_buf_init b n) ≡ buffer.as_buf_ptr b) where
  -- A read leaves its buffer where it is.
  init_token-stays :
      (buf : CompletionBuffer B) (polled : TokenPoll)
      → buffer.as_buf_ptr (as_ref (init_token buf polled)) ≡ buffer.as_buf_ptr (as_ref buf)
  unfolding init_token as_ref update
  init_token-stays (inline b) (gives (done n)) = stays b n
  init_token-stays (boxed b) (gives (done n)) = stays b n
  init_token-stays buf (gives (failed n)) = refl
  init_token-stays buf (fails e) = refl
  init_token-stays buf waits = refl

  live_buf-init :
      (token : Option ℕ) (buf : CompletionBuffer B) (polled : TokenPoll)
      → live_buf token (init_token buf polled) ≡ live_buf token buf
  live_buf-init token buf polled =
      ap (λ r. record { completion_token = token; memory = r ∷ [] }) (init_token-stays buf polled)

module _ {R C B : Type 0} ⦃registrations : Slab HandleRegistration R⦄
    ⦃completions : Slab Completion C⦄ ⦃buffer : IoBuf B⦄ ⦃buffer_mut : IoBufMut B⦄
    (stays : (b : B) (n : ℕ)
      → buffer.as_buf_ptr (buffer_mut.set_buf_init b n) ≡ buffer.as_buf_ptr b) where
  -- If setting the length of a buffer does not move it and the next token is below 2 ^ 62, then each
  -- poll of a live operation with one buffer is a step of the system in which operations hand over all of their memory.
  pub poll_transfer-Step :
      (s : System R C) (i : ℕ) (op : Transfer B) (answer : Submitted) (waker : ℕ)
      → s.ops i ≡ some (live op)
      → completions.next_key s.driver.completions < 2 ^ 62
      → Step all s (record {
        driver = (poll_transfer s.driver op answer waker).0;
        ops = set_op s.ops i (some (live (poll_transfer s.driver op answer waker).1));
      })
  unfolding poll_transfer live Read.poll_completion Read.build_completion_entry
      Write.poll_completion Write.build_completion_entry ReadAt.poll_completion
      ReadAt.build_completion_entry WriteAt.poll_completion WriteAt.build_completion_entry
      Recv.poll_completion Recv.build_completion_entry Send.poll_completion
      Send.build_completion_entry pointers
  poll_transfer-Step s i (read_op op) answer waker found small =
      polled-Step s i (live_buf op.completion_token op.buf) _ (Read.build_completion_entry op)
        answer waker found small (sized-built _ _ _ (λ n. refl)) (live_buf-init stays _ op.buf _)
  poll_transfer-Step s i (write_op op) answer waker found small =
      polled-Step s i (live_buf op.completion_token op.buf) _ (Write.build_completion_entry op)
        answer waker found small (sized-built _ _ _ (λ n. refl)) (refl)
  poll_transfer-Step s i (read_at_op op) answer waker found small =
      polled-Step s i (live_buf op.completion_token op.buf) _ (ReadAt.build_completion_entry op)
        answer waker found small (sized-built _ _ _ (λ n. refl)) (live_buf-init stays _ op.buf _)
  poll_transfer-Step s i (write_at_op op) answer waker found small =
      polled-Step s i (live_buf op.completion_token op.buf) _ (WriteAt.build_completion_entry op)
        answer waker found small (sized-built _ _ _ (λ n. refl)) (refl)
  poll_transfer-Step s i (recv_op op) answer waker found small =
      polled-Step s i (live_buf op.completion_token op.buf) _ (Recv.build_completion_entry op)
        answer waker found small (sized-built _ _ _ (λ n. refl)) (live_buf-init stays _ op.buf _)
  poll_transfer-Step s i (send_op op) answer waker found small =
      polled-Step s i (live_buf op.completion_token op.buf) _ (Send.build_completion_entry op)
        answer waker found small (sized-built _ _ _ (λ n. refl)) (refl)

  -- And so is its drop.
  pub drop_transfer-Step :
      (s : System R C) (i : ℕ) (op : Transfer B)
      → s.ops i ≡ some (live op)
      → Step all s (record { driver = drop_transfer s.driver op; ops = set_op s.ops i none })
  unfolding drop_transfer live Read.drop Write.drop ReadAt.drop WriteAt.drop Recv.drop Send.drop
  drop_transfer-Step s i (read_op op) found =
      drops i (live_buf op.completion_token op.buf) found refl
  drop_transfer-Step s i (write_op op) found =
      drops i (live_buf op.completion_token op.buf) found refl
  drop_transfer-Step s i (read_at_op op) found =
      drops i (live_buf op.completion_token op.buf) found refl
  drop_transfer-Step s i (write_at_op op) found =
      drops i (live_buf op.completion_token op.buf) found refl
  drop_transfer-Step s i (recv_op op) found =
      drops i (live_buf op.completion_token op.buf) found refl
  drop_transfer-Step s i (send_op op) found =
      drops i (live_buf op.completion_token op.buf) found refl
