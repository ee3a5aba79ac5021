-- ===== src/Drivers/Mio.antt =====
-- `MioDriver` (driver/mio.rs): its registrations, the polls that wait on them, and the events that
-- wake them. The selector of the third-party `mio` crate is the interest that it has for each token;
-- whether it accepts a call is an argument.
pub mod Served
pub mod Watched
use zincio.Prelude.{
  ℕ, ◌+◌, ◌-◌, ◌<◌, Bool, true, false, not, ◌&&◌, ◌||◌, Option, none, some, List, [], ◌∷◌, ◌++◌,
  ◌==◌, ltb, if◌then◌else◌,
}
use zincio.Io.Stream.{IoError, not_found, IoResult, ok, err}
use zincio.Executor.Join.{update_waker_slot, to_wake}
use zincio.Drivers.Slab.{Slab}
use zincio.Drivers.Uring.Polls.{Interest}

pub record Registration : Type 0 where
  pub fd : ℕ
  pub waiter_read : Option ℕ
  pub waiter_write : Option ℕ
  pub interest : Option Interest

pub record MioDriver (R : Type 0) : Type 0 where
  pub registrations : R
  pub selector : ℕ → Option Interest
  pub waiter_count : ℕ

abbrev pub is_some : Option ℕ → Bool
is_some none = false
is_some (some n) = true

abbrev pub count_some : Option ℕ → ℕ
count_some none = 0
count_some (some n) = 1

-- The slot, and the count of waiters.
unfoldable pub update_waiter : Option ℕ → ℕ → ℕ → Option ℕ × ℕ
update_waiter slot waker count =
    (update_waker_slot slot waker, elim slot [ none ↦ count + 1 | some w ↦ count ])

-- A side of a poll, which may be for the other one only.
unfoldable pub poll_side : Bool → Option ℕ → ℕ → ℕ → Option ℕ × ℕ
poll_side on slot waker count = if on then update_waiter slot waker count else (slot, count)

unfoldable pub interest_contains : Interest → Interest → Bool
interest_contains current needed =
    (not needed.is_readable || current.is_readable)
    && (not needed.is_writable || current.is_writable)

-- Every interest that still waits, and the new one.
unfoldable pub wanted : Registration → Interest → Interest
wanted r interest = record {
  is_readable = interest.is_readable || is_some r.waiter_read;
  is_writable = interest.is_writable || is_some r.waiter_write;
}

unfoldable pub must_rearm : Registration → Interest → Bool
must_rearm r needed = elim r.interest [
  | none ↦ true
  | some current ↦ not (interest_contains current needed)
]

abbrev pub select : (ℕ → Option Interest) → ℕ → Option Interest → ℕ → Option Interest
select selector token interest t = if token == t then interest else selector t

-- A side of an event: the waiter that stays, and the one that is woken.
unfoldable pub take_ready : Bool → Option ℕ → Option ℕ × Option ℕ
take_ready ready waiter = if ready then (none, waiter) else (waiter, none)

-- An event; `none` is the token of the interrupt.
pub record Event : Type 0 where
  pub token : Option ℕ
  pub is_readable : Bool
  pub is_read_closed : Bool
  pub is_writable : Bool
  pub is_write_closed : Bool
  pub is_error : Bool

module _ {R : Type 0} where
  unfoldable pub should_flush : MioDriver R → Bool
  should_flush u = ltb 0 u.waiter_count

module _ {R : Type 0} ⦃registrations : Slab Registration R⦄ where
  -- A registration that the selector refuses is removed again.
  unfoldable pub register_handle :
      MioDriver R → ℕ → Interest → Option IoError → MioDriver R × IoResult ℕ
  register_handle u fd interest refused =
      let token = registrations.next_key u.registrations in
      let inserted =
        registrations.insert u.registrations
          (record { fd = fd; waiter_read = none; waiter_write = none; interest = some interest }) in
      elim refused [
        | some e ↦ (record u { registrations = registrations.remove inserted token }, err e)
        | none ↦ (
          record u { registrations = inserted; selector = select u.selector token (some interest) },
          ok token,
        )
      ]

  unfoldable pub reregister_handle :
      MioDriver R → ℕ → Interest → Option IoError → MioDriver R × IoResult (Unit {0})
  reregister_handle u token interest refused = elim (registrations.get u.registrations token) [
    | none ↦ (u, err not_found)
    | some r ↦ elim refused [
      | some e ↦ (u, err e)
      | none ↦ (
        record u {
          registrations =
              registrations.store u.registrations token (record r { interest = some interest });
          selector = select u.selector token (some interest);
        },
        ok tt,
      )
    ]
  ]

  unfoldable pub deregister_handle :
      MioDriver R → ℕ → Option IoError → MioDriver R × IoResult (Unit {0})
  deregister_handle u token refused = elim (registrations.get u.registrations token) [
    | none ↦ (u, err not_found)
    | some r ↦ elim refused [
      | some e ↦ (u, err e)
      | none ↦ (
        record u {
          registrations = registrations.remove u.registrations token;
          selector = select u.selector token none;
          waiter_count = u.waiter_count - (count_some r.waiter_read + count_some r.waiter_write);
        },
        ok tt,
      )
    ]
  ]

  -- The waiters of the sides that the poll is for.
  unfoldable pub set_waiters : MioDriver R → ℕ → Registration → ℕ → Interest → MioDriver R
  set_waiters u token r waker interest =
      let (write, n) = poll_side interest.is_writable r.waiter_write waker u.waiter_count in
      let (read, m) = poll_side interest.is_readable r.waiter_read waker n in
      record u {
        registrations =
            registrations.store u.registrations token
              (record r { waiter_read = read; waiter_write = write });
        waiter_count = m;
      }

  unfoldable pub submit_poll :
      MioDriver R → ℕ → ℕ → Interest → Option IoError → MioDriver R × IoResult (Unit {0})
  submit_poll u token waker interest refused = elim (registrations.get u.registrations token) [
    | none ↦ (u, err not_found)
    | some r ↦
        let needed = wanted r interest in
        if must_rearm r needed
        then (elim refused [
          | some e ↦ (u, err e)
          | none ↦ (
            set_waiters (record u { selector = select u.selector token (some needed) }) token
                (record r { interest = some needed }) waker interest,
            ok tt,
          )
        ])
        else (set_waiters u token r waker interest, ok tt)
  ]

  -- One event: the driver, and the wakers that it called so far.
  unfoldable pub wake_token : MioDriver R × List ℕ → ℕ → Bool → Bool → MioDriver R × List ℕ
  wake_token (u, woken) token read write = elim (registrations.get u.registrations token) [
    | none ↦ (u, woken)
    | some r ↦
        let (read_left, read_woken) = take_ready read r.waiter_read in
        let (write_left, write_woken) = take_ready write r.waiter_write in
        (
          record u {
            registrations =
                registrations.store u.registrations token (record r {
                  waiter_read = read_left;
                  waiter_write = write_left;
                  interest = none;
                });
            waiter_count = u.waiter_count - count_some read_woken - count_some write_woken;
          },
          woken ++ to_wake read_woken ++ to_wake write_woken,
        )
  ]

  unfoldable pub wake_event : MioDriver R × List ℕ → Event → MioDriver R × List ℕ
  wake_event st e = elim e.token [
    | none ↦ st
    | some token ↦
        wake_token st token (e.is_readable || e.is_read_closed || e.is_error)
          (e.is_writable || e.is_write_closed || e.is_error)
  ]

  -- The events of one poll of the selector.
  unfoldable pub wait_timeout : MioDriver R × List ℕ → List Event → MioDriver R × List ℕ
  wait_timeout st [] = st
  wait_timeout st (e ∷ es) = wait_timeout (wake_event st e) es
