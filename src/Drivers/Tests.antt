-- ===== src/Drivers/Tests.antt =====
-- `UringDriver` over slabs that are vectors with vacant places, and its theorems there.
use zincio.Prelude.{
  ℕ, ◌≡◌, ◌≢◌, inl, refl, true, false, Option, none, some, List, [], ◌∷◌, ◌==◌, arith,
}
use zincio.Handles as Mode
use zincio.Io.Stream.{ok}
use zincio.Drivers.Slab.{vec_slab}
use zincio.Drivers.Uring.{
  Entry, Submitted, Completion, PollRegistration, HandleRegistration, poll, UringDriver, submit,
  push, is_full, push_pending, push_entry, encode_completion_key, encode_poll_key, decode_token,
  decode_key_kind, completion_key_kind, poll_write_key_kind,
}
use zincio.Drivers.Uring.Keys.{IsTokenKey}
use zincio.Drivers.Uring.Keys as Keys
use zincio.Drivers.Uring.Polls.{Interest, register_handle_with_mode, submit_poll, push_poll_add}
use zincio.Drivers.Uring.Polls.Armed.{InFlight}
use zincio.Drivers.Uring.Queue.{drain_cq}
use zincio.Drivers.Uring.Collect.{
  Calls, should_flush, interrupt_entry, submit_interrupt, flush, settle, collect_completions,
  submit_pending, submit_ring, finish_drain,
}
use zincio.Drivers.Uring.Runs.{new, DriverReach, starts, next, registers, polls, flushes}
use zincio.Drivers.Uring.Runs.Waking as Waking
use zincio.Drivers.Mio.{MioDriver}
use zincio.Drivers.Mio as Mio
use zincio.Drivers.Mio.Served.{Watches}
use zincio.Drivers.Mio.Watched.{MioReach}
use zincio.Drivers.Mio.Watched as Watched

abbrev TestDriver : Type 0
TestDriver = UringDriver (List (Option HandleRegistration)) (List (Option Completion))

-- A call of the kernel that takes one entry.
abbrev one_taken : Submitted
one_taken = record { taken = 1; error = none }

abbrev read_interest : Interest
read_interest = record { is_readable = true; is_writable = false }

abbrev poll_entry : Entry
poll_entry = record { user_data = 0; memory = [] }

abbrev new_driver : TestDriver
new_driver = record {
  ring = record {
    outstanding = interrupt_entry ∷ [];
    unsubmitted = 1;
    entries = 4;
    pending_submissions = true;
  };
  registrations = [];
  completions = [];
}

abbrev idle_seven : PollRegistration
idle_seven = record {
  fd = 7;
  waiter_read = none;
  poll_read_armed = false;
  waiter_write = none;
  poll_write_armed = false;
}

abbrev waiting_seven : PollRegistration
waiting_seven = record idle_seven { waiter_read = some 9; poll_read_armed = true }

abbrev registered : TestDriver
registered = record new_driver { registrations = some (poll idle_seven) ∷ [] }

-- The handle 7 waits with the waker 9.
abbrev waiting : TestDriver
waiting = record {
  ring = record {
    outstanding = interrupt_entry ∷ poll_entry ∷ [];
    unsubmitted = 2;
    entries = 4;
    pending_submissions = true;
  };
  registrations = some (poll waiting_seven) ∷ [];
  completions = [];
}

new-Reach : DriverReach new_driver
unfolding new submit_interrupt push_entry is_full push_pending push
new-Reach = starts new_driver 4 one_taken refl

waiting-Reach : DriverReach waiting
unfolding register_handle_with_mode submit_poll push_poll_add push_entry is_full push_pending push
    encode_poll_key
waiting-Reach =
    next (next new-Reach (registers 7 Mode.poll (omega arith) refl))
      (polls 0 9 read_interest one_taken refl)

-- The kernel takes the interrupt's entry in a flush.
abbrev taking : Calls
taking = record {
  room = one_taken;
  main = one_taken;
  interrupt_room = one_taken;
  outstanding = interrupt_entry ∷ [];
  completed = [];
}

abbrev flushed : TestDriver
flushed = record new_driver {
  ring = record {
    outstanding = interrupt_entry ∷ [];
    unsubmitted = 0;
    entries = 4;
    pending_submissions = false;
  };
}

flushed-Reach : DriverReach flushed
unfolding flush settle collect_completions submit_pending submit_ring submit drain_cq finish_drain
flushed-Reach = next new-Reach (
    flushes taking (record { driver = flushed; wakers = []; result = ok tt }) (λ e m. inl m) refl
      refl)

decode-encode_example :
    ((decode_token (encode_completion_key 5) ≡ 5)
      × (decode_key_kind (encode_completion_key 5) ≡ completion_key_kind)
      × IsTokenKey (encode_completion_key 5))
    × (decode_token (encode_poll_key 5 true) ≡ 5)
    × (decode_key_kind (encode_poll_key 5 true) ≢ completion_key_kind)
    × ((decode_key_kind (encode_poll_key 5 true) == poll_write_key_kind) ≡ true)
    × IsTokenKey (encode_poll_key 5 true)
decode-encode_example = Keys.decode-encode 5 true (omega arith)

waiting-InFlight_example : InFlight waiting.ring.outstanding 0 false
waiting-InFlight_example =
    Waking.waiting-InFlight waiting 0 9 waiting_seven false waiting-Reach refl refl

not_should_flush_example : flushed.ring.unsubmitted ≡ 0
unfolding should_flush
not_should_flush_example = Waking.not_should_flush flushed flushed-Reach refl

-- A handle of `MioDriver` that a reader and then a writer wait on.
abbrev write_interest : Interest
write_interest = record { is_readable = false; is_writable = true }

abbrev no_interest : ℕ → Option Interest
no_interest t = none

abbrev TestMio : Type 0
TestMio = MioDriver (List (Option Mio.Registration))

abbrev empty_mio : TestMio
empty_mio = record { registrations = []; selector = no_interest; waiter_count = 0 }

abbrev registered_mio : TestMio
registered_mio = (Mio.register_handle empty_mio 7 read_interest none).0

abbrev reader_mio : TestMio
reader_mio = (Mio.submit_poll registered_mio 0 9 read_interest none).0

abbrev both_mio : TestMio
both_mio = (Mio.submit_poll reader_mio 0 8 write_interest none).0

both-Reach : MioReach both_mio
both-Reach =
    Watched.next {u = reader_mio}
      (Watched.next {u = registered_mio}
        (Watched.next {u = empty_mio} (Watched.starts empty_mio (λ t. refl))
          (Watched.registers 7 read_interest none refl))
        (Watched.polls 0 9 read_interest none refl))
      (Watched.polls 0 8 write_interest none refl)

-- The reader is still watched after the poll of the writer.
waiter_on-Watches_example : Watches (both_mio.selector 0) false
unfolding Mio.register_handle Mio.submit_poll Mio.set_waiters Mio.poll_side Mio.update_waiter
    Mio.must_rearm Mio.wanted Mio.interest_contains
waiter_on-Watches_example =
    Watched.waiter_on-Watches both_mio 0 9
      (record {
        fd = 7;
        waiter_read = some 9;
        waiter_write = some 8;
        interest = some (record { is_readable = true; is_writable = true });
      })
      false both-Reach refl refl
