-- ===== src/Handles.antt =====
-- `InnerRawHandle` (fd_inner.rs): under which mode a handle is registered with the driver, and to
-- which side of an operation a poll goes. The driver (driver/mod.rs) is an interface.
pub mod Binding
pub mod Creation
pub mod AnyDriver
mod Tests
use zincio.Prelude.{ℕ, ◌≡◌, ◌≢◌, Bool, true, false, not, ◌&&◌, Option, none, some, if◌then◌else◌}
use zincio.Executor.Join.{Poll, ready, pending}
use zincio.Io.Stream.{IoError, not_connected, unsupported, IoResult, ok, err}

pub data RegistrationMode : Type 0 where
  poll completion : RegistrationMode

abbrev pub is_completion : RegistrationMode → Bool
is_completion poll = false
is_completion completion = true

abbrev pub same_mode : RegistrationMode → RegistrationMode → Bool
same_mode poll m = not (is_completion m)
same_mode completion m = is_completion m

-- A driver, as handles use it: `mode_of` is the mode of the operations that it serves for a token. A
-- call that fails changes no registration, and no call changes what the driver supports. AnyDriver
-- has the drivers of the program.
pub record Driver (D : Type 0) : Type 0 where
  pub supports_completion : D → Bool
  pub register : D → ℕ → ℕ → RegistrationMode → D × IoResult ℕ
  pub deregister : D → ℕ → D × IoResult (Unit {0})
  pub mode_of : D → ℕ → Option RegistrationMode
  pub register_ok :
      (d : D) (handle interest : ℕ) (mode : RegistrationMode) (token : ℕ)
      → supports_completion d && is_completion mode ≡ is_completion mode
      → (register d handle interest mode).1 ≡ ok token
      → mode_of (register d handle interest mode).0 token ≡ some mode
  pub register_err :
      (d : D) (handle interest : ℕ) (mode : RegistrationMode) (e : IoError) (token : ℕ)
      → (register d handle interest mode).1 ≡ err e
      → mode_of (register d handle interest mode).0 token ≡ mode_of d token
  pub register_supports :
      (d : D) (handle interest : ℕ) (mode : RegistrationMode)
      → supports_completion (register d handle interest mode).0 ≡ supports_completion d
  pub deregister_ok :
      (d : D) (token : ℕ)
      → (deregister d token).1 ≡ ok tt
      → mode_of (deregister d token).0 token ≡ none
  pub deregister_err :
      (d : D) (token : ℕ) (e : IoError) (other : ℕ)
      → (deregister d token).1 ≡ err e
      → mode_of (deregister d token).0 other ≡ mode_of d other
  pub deregister_supports :
      (d : D) (token : ℕ) → supports_completion (deregister d token).0 ≡ supports_completion d

pub record InnerRawHandle : Type 0 where
  pub handle : ℕ
  pub token : ℕ
  pub interest : ℕ
  pub mode : RegistrationMode

module _ {D : Type 0} ⦃driver : Driver D⦄ where
  -- `Drop`.
  unfoldable pub drop_handle : D → InnerRawHandle → D
  drop_handle d h = (driver.deregister d h.token).0

  -- Completion only where the driver supports it.
  unfoldable pub effective_mode : D → RegistrationMode → RegistrationMode
  effective_mode d mode =
      if is_completion mode && not (driver.supports_completion d) then poll else mode

  -- A handle that the driver does not register is dropped with the token 0.
  unfoldable pub new_with_driver_and_mode :
      D → ℕ → ℕ → RegistrationMode → D × IoResult InnerRawHandle
  new_with_driver_and_mode d handle interest mode =
      let (d', answer) = driver.register d handle interest (effective_mode d mode) in
      elim answer [
        | ok token ↦ (
          d',
          ok (record {
            handle = handle;
            token = token;
            interest = interest;
            mode = effective_mode d mode;
          }),
        )
        | err e ↦ (
          drop_handle d' (record {
            handle = handle;
            token = 0;
            interest = interest;
            mode = effective_mode d mode;
          }),
          err e,
        )
      ]

  -- The driver is the current one, if there is a runtime.
  unfoldable pub new_with_mode :
      Option D → ℕ → ℕ → RegistrationMode → Option D × IoResult InnerRawHandle
  new_with_mode none handle interest mode = (none, err not_connected)
  new_with_mode (some d) handle interest mode =
      let (d', answer) = new_with_driver_and_mode d handle interest mode in (some d', answer)

  unfoldable pub default_mode : Option D → RegistrationMode
  default_mode none = poll
  default_mode (some d) = if driver.supports_completion d then completion else poll

  unfoldable pub new : Option D → ℕ → ℕ → Option D × IoResult InnerRawHandle
  new current handle interest = new_with_mode current handle interest (default_mode current)

  unfoldable pub uses_completion : D → InnerRawHandle → Bool
  uses_completion d h = driver.supports_completion d && is_completion h.mode

  unfoldable pub rebind_mode :
      D → InnerRawHandle → RegistrationMode → D × InnerRawHandle × IoResult (Unit {0})
  rebind_mode d h requested =
      if same_mode h.mode (effective_mode d requested)
      then (d, h, ok tt)
      else (let (d', answer) = driver.deregister d h.token in
          elim answer [
            | ok u ↦
                let (d'', registered) =
                  driver.register d' h.handle h.interest (effective_mode d requested) in
                elim registered [
                  | ok token ↦
                      (d'', record h { token = token; mode = effective_mode d requested }, ok tt)
                  | err e ↦ (d'', h, err e)
                ]
            | err e ↦ (d', h, err e)
          ])

  -- The two sides of an operation are parameters.
  unfoldable pub poll_op :
      {A : Type 0} → D → InnerRawHandle → Poll (IoResult A) → Poll (IoResult A) → Poll (IoResult A)
  poll_op d h by_completion by_poll = if uses_completion d h then by_completion else by_poll

  unfoldable pub poll_op_poll :
      {A : Type 0} → D → InnerRawHandle → Poll (IoResult A) → Poll (IoResult A)
  poll_op_poll d h by_poll = if uses_completion d h then ready (err unsupported) else by_poll
