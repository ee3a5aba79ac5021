-- ===== src/Handles/AnyDriver/Uring.antt =====
-- `UringDriver` as handles use it, and that it keeps what they rely on.
use zincio.Prelude.{ℕ, ◌≡◌, refl, true, false, Option, none, some, arith}
use zincio.Io.Stream.{IoError, IoResult, ok, err}
use zincio.Handles.{RegistrationMode, completion, poll, Driver}
use zincio.Drivers.Slab.{Slab}
use zincio.Drivers.Uring.{UringDriver, HandleRegistration}
use zincio.Drivers.Uring as Uring
use zincio.Drivers.Uring.Polls as Polls
use zincio.Drivers.Uring.Polls.{Interest}

abbrev pub served_mode : Option HandleRegistration → Option RegistrationMode
served_mode none = none
served_mode (some Uring.completion) = some completion
served_mode (some (Uring.poll p)) = some poll

abbrev new_poll : ℕ → HandleRegistration
new_poll fd = Uring.poll (record {
  fd = fd;
  waiter_read = none;
  poll_read_armed = false;
  waiter_write = none;
  poll_write_armed = false;
})

module _ {R C : Type 0} ⦃registrations : Slab HandleRegistration R⦄ where
  -- `supports_completion` is true; the interest of a handle is not used.
  abbrev pub uring_register :
      UringDriver R C → ℕ → ℕ → RegistrationMode → UringDriver R C × IoResult ℕ
  uring_register u handle interest mode = Polls.register_handle_with_mode u handle mode

  abbrev pub uring_mode_of : UringDriver R C → ℕ → Option RegistrationMode
  uring_mode_of u token = served_mode (registrations.get u.registrations token)

  pub uring_register_ok :
      (u : UringDriver R C) (handle interest : ℕ) (mode : RegistrationMode) (token : ℕ)
      → (uring_register u handle interest mode).1 ≡ ok token
      → uring_mode_of (uring_register u handle interest mode).0 token ≡ some mode
  unfolding Polls.register_handle_with_mode
  uring_register_ok u handle interest completion token given =
      ground (arith, registrations.get-insert u.registrations Uring.completion token)
  uring_register_ok u handle interest poll token given =
      ground (arith, registrations.get-insert u.registrations (new_poll handle) token)

  pub uring_register_err :
      (u : UringDriver R C) (handle interest : ℕ) (mode : RegistrationMode) (e : IoError)
      (token : ℕ)
      → (uring_register u handle interest mode).1 ≡ err e
      → uring_mode_of (uring_register u handle interest mode).0 token ≡ uring_mode_of u token
  unfolding Polls.register_handle_with_mode
  uring_register_err u handle interest mode e token refused = ground arith

  pub uring_deregister_ok :
      (u : UringDriver R C) (token : ℕ)
      → (Polls.deregister_handle u token).1 ≡ ok tt
      → uring_mode_of (Polls.deregister_handle u token).0 token ≡ none
  unfolding Polls.deregister_handle
  uring_deregister_ok u token given =
      ground (arith, registrations.get-remove u.registrations token token)

  pub uring_deregister_err :
      (u : UringDriver R C) (token : ℕ) (e : IoError) (other : ℕ)
      → (Polls.deregister_handle u token).1 ≡ err e
      → uring_mode_of (Polls.deregister_handle u token).0 other ≡ uring_mode_of u other
  unfolding Polls.deregister_handle
  uring_deregister_err u token e other refused = ground arith

  instance unfoldable pub uring_driver : Driver (UringDriver R C)
  uring_driver = record {
    supports_completion = λ u. true;
    register = uring_register;
    deregister = Polls.deregister_handle;
    mode_of = uring_mode_of;
    register_ok = λ u handle interest mode token _ given.
        uring_register_ok u handle interest mode token given;
    register_err = uring_register_err;
    register_supports = λ u handle interest mode. refl;
    deregister_ok = uring_deregister_ok;
    deregister_err = uring_deregister_err;
    deregister_supports = λ u token. refl;
  }
