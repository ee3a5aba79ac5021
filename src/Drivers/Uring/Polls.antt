-- ===== src/Drivers/Uring/Polls.antt =====
-- The registrations of `UringDriver`: registering, polls, and the completion of a poll.
pub mod Armed
use zincio.Prelude.{ℕ, Bool, true, false, Option, none, some, List, [], ◌∷◌, if◌then◌else◌}
use zincio.Io.Stream.{IoError, unsupported, not_found, IoResult, ok, err}
use zincio.Executor.Join.{update_waker_slot}
use zincio.Handles.{RegistrationMode}
use zincio.Handles as Mode
use zincio.Drivers.Slab.{Slab}
use zincio.Drivers.Uring.{
  Ring, Entry, Submitted, push_entry, encode_poll_key, UringDriver, PollRegistration,
  HandleRegistration, completion, poll,
}

pub record Interest : Type 0 where
  pub is_readable : Bool
  pub is_writable : Bool

-- The two sides of a registration: `write` says which one is meant.
abbrev pub waiter : PollRegistration → Bool → Option ℕ
waiter p true = p.waiter_write
waiter p false = p.waiter_read

abbrev pub armed : PollRegistration → Bool → Bool
armed p true = p.poll_write_armed
armed p false = p.poll_read_armed

abbrev pub set_side : PollRegistration → Bool → Option ℕ → Bool → PollRegistration
set_side p true w a = record p { waiter_write = w; poll_write_armed = a }
set_side p false w a = record p { waiter_read = w; poll_read_armed = a }

module _ {R C : Type 0} ⦃registrations : Slab HandleRegistration R⦄ where
  unfoldable pub register_handle_with_mode :
      UringDriver R C → ℕ → RegistrationMode → UringDriver R C × IoResult ℕ
  register_handle_with_mode u fd mode = (
    record u {
      registrations = registrations.insert u.registrations (elim mode [
        | Mode.completion ↦ completion
        | Mode.poll ↦ poll (record {
          fd = fd;
          waiter_read = none;
          poll_read_armed = false;
          waiter_write = none;
          poll_write_armed = false;
        })
      ]);
    },
    ok (registrations.next_key u.registrations),
  )

  unfoldable pub reregister_handle : UringDriver R C → ℕ → IoResult (Unit {0})
  reregister_handle u token = elim (registrations.get u.registrations token) [
    | some r ↦ ok tt
    | none ↦ err not_found
  ]

  -- The cancellation of the polls in flight is a call of the kernel, which completes them.
  unfoldable pub deregister_handle : UringDriver R C → ℕ → UringDriver R C × IoResult (Unit {0})
  deregister_handle u token = elim (registrations.get u.registrations token) [
    | some r ↦ (record u { registrations = registrations.remove u.registrations token }, ok tt)
    | none ↦ (u, err not_found)
  ]

  -- The poll is pushed; if that fails, the side is cleared.
  unfoldable pub push_poll_add :
      UringDriver R C
      → ℕ
      → PollRegistration
      → Bool
      → Submitted
      → UringDriver R C × IoResult (Unit {0})
  push_poll_add u token p write s =
      let (ring, pushed) =
        push_entry u.ring s (record { user_data = encode_poll_key token write; memory = [] }) in
      elim pushed [
        | ok v ↦ (
          record u {
            ring = ring;
            registrations = registrations.store u.registrations token (poll p);
          },
          ok tt,
        )
        | err e ↦ (
          record u {
            ring = ring;
            registrations =
                registrations.store u.registrations token (poll (set_side p write none false));
          },
          err e,
        )
      ]

  unfoldable pub submit_poll :
      UringDriver R C → ℕ → ℕ → Interest → Submitted → UringDriver R C × IoResult (Unit {0})
  submit_poll u token waker interest s =
      let write = interest.is_writable in
      elim (registrations.get u.registrations token) [
        | none ↦ (u, err not_found)
        | some registration ↦ elim registration [
          | completion ↦ (u, err unsupported)
          | poll p ↦
              let p' = set_side p write (update_waker_slot (waiter p write) waker) true in
              if armed p write
              then (
                record u { registrations = registrations.store u.registrations token (poll p') },
                ok tt,
              )
              else push_poll_add u token p' write s
        ]
      ]

module _ {R : Type 0} ⦃registrations : Slab HandleRegistration R⦄ where
  -- The part of `drain_cq` for the key of a poll: the registrations, and the waker to call.
  unfoldable pub drain_poll : R → ℕ → Bool → R × Option ℕ
  drain_poll rs token write = elim (registrations.get rs token) [
    | none ↦ (rs, none)
    | some registration ↦ elim registration [
      | completion ↦ (rs, none)
      | poll p ↦ (registrations.store rs token (poll (set_side p write none false)), waiter p write)
    ]
  ]
