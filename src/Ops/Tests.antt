-- ===== src/Ops/Tests.antt =====
-- Operations over `UringDriver`, its slabs vectors with vacant places, and the theorems on them.
use zincio.Prelude.{
  ℕ, ◌≡◌, refl, inl, Bool, true, false, Option, none, some, List, [], ◌∷◌, arith, vec_get,
}
use zincio.Handles.{InnerRawHandle}
use zincio.Handles as Mode
use zincio.Io.Stream.{ok}
use zincio.Drivers.Slab.{vec_slab}
use zincio.Drivers.Uring.{
  Entry, Submitted, Completion, HandleRegistration, UringDriver, done, encode_completion_key,
  submit_completion, push_entry, is_full, push_pending, push, ignore_completion,
}
use zincio.Ops.{poll_token, poll_unsubmitted, drop_op}
use zincio.Ops.Buffers.{IoBuf, IoBufMut, inline, as_ref, PollDriver}
use zincio.Ops.Memory.{
  LiveOp, System, build_entry, set_op, Step, Reach, starts, next, makes, polls, drops, Held,
}
use zincio.Ops.Memory.Transfer.{Transfer, read_op, live, poll_transfer}
use zincio.Ops.Memory.Refines.{all}
use zincio.Ops.Memory.Refines as Refines
use zincio.Ops.Memory.Kept as Kept
use zincio.Ops.Memory.Modes as Modes
use zincio.Drivers.Uring.Queue.{drain_entry}
use zincio.Drivers.Uring.{drain_completion, decode_token, decode_key_kind}
use zincio.Ops.Memory.{completes}
use zincio.Ops.Memory.Left.{IsLeft, stays}
use zincio.Ops.Memory.Left as Left

abbrev Completions : Type 0
Completions = List (Option Completion)

abbrev TestDriver : Type 0
TestDriver = UringDriver (List (Option HandleRegistration)) Completions

abbrev TestSystem : Type 0
TestSystem = System (List (Option HandleRegistration)) Completions

-- A call of the kernel that takes nothing.
abbrev none_taken : Submitted
none_taken = record { taken = 0; error = none }

abbrev driver_of : List Entry → ℕ → Bool → Completions → TestDriver
driver_of outstanding unsubmitted pending cs = record {
  ring = record {
    outstanding = outstanding;
    unsubmitted = unsubmitted;
    entries = 4;
    pending_submissions = pending;
  };
  registrations = [];
  completions = cs;
}

abbrev no_ops : ℕ → Option LiveOp
no_ops i = none

abbrev start : TestSystem
start = record { driver = driver_of [] 0 false []; ops = no_ops }

-- An operation on the region 77, before and after its first poll.
abbrev made_77 : LiveOp
made_77 = record { completion_token = none; memory = 77 ∷ [] }

abbrev polled_77 : LiveOp
polled_77 = record { completion_token = some 0; memory = 77 ∷ [] }

abbrev entry_77 : Entry
entry_77 = record { user_data = 1; memory = 77 ∷ [] }

abbrev made : TestSystem
made = record { driver = driver_of [] 0 false []; ops = set_op no_ops 0 (some made_77) }

abbrev polled : TestSystem
polled = record {
  driver =
      driver_of (entry_77 ∷ []) 1 true
        (some (record { waiter = some 5; completed = none; ignored_data = none }) ∷ []);
  ops = set_op made.ops 0 (some polled_77);
}

-- Its entry is still in flight when it is dropped.
abbrev dropped : TestSystem
dropped = record {
  driver =
      driver_of (entry_77 ∷ []) 1 true
        (some (record { waiter = some 5; completed = none; ignored_data = some (77 ∷ []) }) ∷ []);
  ops = set_op polled.ops 0 none;
}

dropped-Reach : Reach all dropped
unfolding poll_token poll_unsubmitted submit_completion build_entry encode_completion_key push_entry
    is_full push_pending push drop_op ignore_completion
dropped-Reach =
    next {s = polled}
      (next {s = made}
        (next {s = start} (starts start (λ t. refl) refl (λ i. refl)) (makes 0 (77 ∷ []) refl refl))
        (polls 0 made_77 none none_taken 5 refl (omega arith) refl))
      (drops 0 polled_77 refl refl)

region-Held_example : Held dropped 77
region-Held_example =
    Kept.region-Held all dropped entry_77 77 (λ m. refl) dropped-Reach (inl refl) refl (inl refl)

-- A buffer: where it is, how much of it is initialised, and how long it is.
record TestBuf : Type 0 where
  pub at : ℕ
  pub len : ℕ
  pub capacity : ℕ

instance abbrev test_buf : IoBuf TestBuf
test_buf = record {
  as_buf_ptr = λ b. b.at;
  buf_len = λ b. b.len;
  buf_capacity = λ b. b.capacity;
  would_box = λ b. false;
}

instance abbrev test_buf_mut : IoBufMut TestBuf
test_buf_mut = record { set_buf_init = λ b n. record b { len = n } }

-- A driver of polls that takes each of them.
instance abbrev test_polls : PollDriver (Unit {0})
test_polls = record { submit_poll = λ d h w i. (tt, ok tt) }

abbrev socket : InnerRawHandle
socket = record { handle = 3; token = 0; interest = 1; mode = Mode.completion }

abbrev reading : Option ℕ → Transfer TestBuf
reading token = read_op (record {
  handle = socket;
  buf = inline (record { at = 77; len = 0; capacity = 16 });
  completion_token = token;
})

poll_transfer-Step_example : Step all made (record {
  driver = (poll_transfer made.driver (reading none) none_taken 5).0;
  ops = set_op made.ops 0 (some (live (poll_transfer made.driver (reading none) none_taken 5).1));
})
unfolding live as_ref
poll_transfer-Step_example =
    Refines.poll_transfer-Step (λ b n. refl) made 0 (reading none) none_taken 5 refl (omega arith)

-- Three bytes were read for the token 0.
abbrev finished : TestDriver
finished =
    driver_of [] 0 false
      (some (record { waiter = none; completed = some (done 3); ignored_data = none }) ∷ [])

-- The kernel completes the read of the region 77, and then the operation is dropped.
abbrev come : Completion
come = record { waiter = none; completed = some (done 3); ignored_data = none }

abbrev completed : TestSystem
completed = record {
  driver = driver_of [] 1 true (some come ∷ []);
  ops = set_op made.ops 0 (some polled_77);
}

abbrev late : TestSystem
late = record {
  driver = driver_of [] 1 true (some (record come { ignored_data = some (77 ∷ []) }) ∷ []);
  ops = set_op completed.ops 0 none;
}

late-Reach : Reach all late
unfolding poll_token poll_unsubmitted submit_completion build_entry encode_completion_key push_entry
    is_full push_pending push drop_op ignore_completion drain_entry drain_completion decode_token
    decode_key_kind
late-Reach =
    next {s = completed}
      (next {s = polled}
        (next {s = made}
          (next {s = start} (starts start (λ t. refl) refl (λ i. refl))
            (makes 0 (77 ∷ []) refl refl))
          (polls 0 made_77 none none_taken 5 refl (omega arith) refl))
        (completes [] [] entry_77 (done 3) refl refl))
      (drops 0 polled_77 refl refl)

late-IsLeft : IsLeft late 0 (record come { ignored_data = some (77 ∷ []) })
late-IsLeft = record { found = refl; finished = (done 3, refl); ignored = (77 ∷ [], refl) }

left_forever_example :
    vec_get late.driver.completions 0 ≡ some (record come { ignored_data = some (77 ∷ []) })
left_forever_example =
    Left.left_forever all late late 0 (record come { ignored_data = some (77 ∷ []) }) (λ m. refl)
      late-Reach late-IsLeft stays
