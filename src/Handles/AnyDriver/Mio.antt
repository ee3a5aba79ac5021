-- ===== src/Handles/AnyDriver/Mio.antt =====
-- `MioDriver` as handles use it, that it keeps what they rely on, and what it loses when it refuses
-- a handle.
use zincio.Prelude.{
  ℕ, ◌+◌, ◌-◌, ◌≡◌, refl, sym, ap, subst, ◌∙◌, false, Option, none, some, ◌==◌, if◌then◌else◌,
  arith,
}
use zincio.Io.Stream.{IoError, not_found, IoResult, ok, err}
use zincio.Handles.{
  RegistrationMode, completion, poll, is_completion, Driver, InnerRawHandle, effective_mode,
  drop_handle, new_with_driver_and_mode,
}
use zincio.Drivers.Slab.{Slab}
use zincio.Drivers.Uring.Polls.{Interest}
use zincio.Drivers.Mio.{
  MioDriver, Registration, submit_poll, register_handle, deregister_handle, select, count_some,
}

drops_zero :
    {D : Type 0} ⦃driver : Driver D⦄ (d : D) (handle interest : ℕ) (mode : RegistrationMode)
    (e : IoError)
    → (driver.register d handle interest (effective_mode d mode)).1 ≡ err e
    → new_with_driver_and_mode d handle interest mode ≡ (
      (driver.deregister (driver.register d handle interest (effective_mode d mode)).0 0).0,
      err e,
    )
unfolding new_with_driver_and_mode drop_handle
drops_zero d handle interest mode e refused = rw (refused, new_with_driver_and_mode) refl

abbrev new_registration : ℕ → Interest → Registration
new_registration fd interest = record {
  fd = fd;
  waiter_read = none;
  waiter_write = none;
  interest = some interest;
}

module _ {R : Type 0} ⦃registrations : Slab Registration R⦄
    -- What the selector answers: to a descriptor with an interest, and when a token is given up.
    (refuses_register : (ℕ → Option Interest) → ℕ → Interest → Option IoError)
    (refuses_deregister : (ℕ → Option Interest) → ℕ → Option IoError)
    -- The interest of the `mio` crate that a handle carries as a number.
    (interest_of : ℕ → Interest) where
  -- The registration does not depend on the mode.
  abbrev mio_register : MioDriver R → ℕ → ℕ → RegistrationMode → MioDriver R × IoResult ℕ
  mio_register u handle interest mode =
      register_handle u handle (interest_of interest)
        (refuses_register u.selector handle (interest_of interest))

  abbrev mio_deregister : MioDriver R → ℕ → MioDriver R × IoResult (Unit {0})
  mio_deregister u token = deregister_handle u token (refuses_deregister u.selector token)

  abbrev mio_mode_of : MioDriver R → ℕ → Option RegistrationMode
  mio_mode_of u token = elim (registrations.get u.registrations token) [
    | none ↦ none
    | some r ↦ some poll
  ]

  pub mio_register_ok :
      (u : MioDriver R) (handle interest : ℕ) (mode : RegistrationMode) (token : ℕ)
      → is_completion mode ≡ false
      → (mio_register u handle interest mode).1 ≡ ok token
      → mio_mode_of (mio_register u handle interest mode).0 token ≡ some mode
  unfolding register_handle
  mio_register_ok u handle interest completion token p given = cc
  mio_register_ok u handle interest poll token p given = ground (
    arith,
    registrations.get-insert u.registrations (new_registration handle (interest_of interest)) token,
  )

  removed_same :
      (u : MioDriver R) (r : Registration) (token : ℕ)
      → registrations.get
          (registrations.remove
            (registrations.insert u.registrations r)
            (registrations.next_key u.registrations))
          token
        ≡ registrations.get u.registrations token
  removed_same u r token = ground (
    arith,
    registrations.get-remove (registrations.insert u.registrations r)
        (registrations.next_key u.registrations) token,
    registrations.get-insert u.registrations r token,
    registrations.next_key_vacant u.registrations,
  )

  pub mio_register_err :
      (u : MioDriver R) (handle interest : ℕ) (mode : RegistrationMode) (e : IoError) (token : ℕ)
      → (mio_register u handle interest mode).1 ≡ err e
      → mio_mode_of (mio_register u handle interest mode).0 token ≡ mio_mode_of u token
  unfolding register_handle
  mio_register_err u handle interest mode e token refused =
      ground (arith, removed_same u (new_registration handle (interest_of interest)) token)

  pub mio_deregister_ok :
      (u : MioDriver R) (token : ℕ)
      → (mio_deregister u token).1 ≡ ok tt
      → mio_mode_of (mio_deregister u token).0 token ≡ none
  unfolding deregister_handle
  mio_deregister_ok u token given =
      ground (arith, registrations.get-remove u.registrations token token)

  pub mio_deregister_err :
      (u : MioDriver R) (token : ℕ) (e : IoError) (other : ℕ)
      → (mio_deregister u token).1 ≡ err e
      → mio_mode_of (mio_deregister u token).0 other ≡ mio_mode_of u other
  unfolding deregister_handle
  mio_deregister_err u token e other refused = ground arith

  unfoldable pub mio_driver : Driver (MioDriver R)
  mio_driver = record {
    supports_completion = λ u. false;
    register = mio_register;
    deregister = mio_deregister;
    mode_of = mio_mode_of;
    register_ok = λ u handle interest mode token polls given.
        mio_register_ok u handle interest mode token (sym polls) given;
    register_err = mio_register_err;
    register_supports = λ u handle interest mode. refl;
    deregister_ok = mio_deregister_ok;
    deregister_err = mio_deregister_err;
    deregister_supports = λ u token. refl;
  }

  -- The driver when the selector refused a descriptor.
  abbrev refused_left : MioDriver R → ℕ → ℕ → MioDriver R
  refused_left u fd interest = record u {
    registrations =
        registrations.remove
          (registrations.insert u.registrations (new_registration fd (interest_of interest)))
          (registrations.next_key u.registrations);
  }

  -- The driver when a token was given up.
  abbrev given_up : MioDriver R → Registration → ℕ → MioDriver R
  given_up u r token = record u {
    registrations = registrations.remove u.registrations token;
    selector = select u.selector token none;
    waiter_count = u.waiter_count - (count_some r.waiter_read + count_some r.waiter_write);
  }

  register_refused :
      (u : MioDriver R) (fd interest : ℕ) (mode : RegistrationMode) (e : IoError)
      → refuses_register u.selector fd (interest_of interest) ≡ some e
      → mio_register u fd interest mode ≡ (refused_left u fd interest, err e)
  unfolding register_handle
  register_refused u fd interest mode e refused = rw refused refl

  deregister_given :
      (u : MioDriver R) (r : Registration) (token : ℕ)
      → registrations.get u.registrations token ≡ some r
      → refuses_deregister u.selector token ≡ none
      → mio_deregister u token ≡ (given_up u r token, ok tt)
  unfolding deregister_handle
  deregister_given u r token found given = rw (found, deregister_handle) (rw given refl)

  abbrev pub new_of_mio :
      MioDriver R → ℕ → ℕ → RegistrationMode → MioDriver R × IoResult InnerRawHandle
  new_of_mio u fd interest mode = new_with_driver_and_mode ⦃driver = mio_driver⦄ u fd interest mode

  refused_new :
      (u : MioDriver R) (fd interest : ℕ) (mode : RegistrationMode) (e : IoError)
      → refuses_register u.selector fd (interest_of interest) ≡ some e
      → new_of_mio u fd interest mode ≡ ((mio_deregister (refused_left u fd interest) 0).0, err e)
  unfolding mio_driver
  refused_new u fd interest mode e refused =
      let asked = effective_mode ⦃driver = mio_driver⦄ u mode in
      let answer = register_refused u fd interest asked e refused in
      drops_zero ⦃driver = mio_driver⦄ u fd interest mode e
        (ap (λ (out : MioDriver R × IoResult ℕ). out.1) answer)
      ∙ ap (λ (out : MioDriver R × IoResult ℕ). ((mio_deregister out.0 0).0, err e)) answer

  refused_drops :
      (u : MioDriver R) (r : Registration) (fd interest : ℕ) (mode : RegistrationMode) (e : IoError)
      → registrations.get u.registrations 0 ≡ some r
      → refuses_register u.selector fd (interest_of interest) ≡ some e
      → refuses_deregister u.selector 0 ≡ none
      → new_of_mio u fd interest mode ≡ (given_up (refused_left u fd interest) r 0, err e)
  refused_drops u r fd interest mode e found refused given =
      let kept = removed_same u (new_registration fd (interest_of interest)) 0 ∙ found in
      refused_new u fd interest mode e refused
      ∙ ap (λ (out : MioDriver R × IoResult (Unit {0})). (out.0, err e))
          (deregister_given (refused_left u fd interest) r 0 kept given)

  -- The registration `r` under the token 0 is lost, and a poll of it fails.
  abbrev pub LosesZero :
      MioDriver R → Registration → IoError → MioDriver R × IoResult InnerRawHandle → Type 0
  LosesZero u r e out =
      (out.1 ≡ err e)
      × (out.0.selector 0 ≡ none)
      × (out.0.waiter_count
          ≡ u.waiter_count - (count_some r.waiter_read + count_some r.waiter_write))
      × ((i : ℕ)
          → registrations.get out.0.registrations i
            ≡ (if 0 == i then none else registrations.get u.registrations i))
      × ((waker : ℕ) (polled : Interest) (refused : Option IoError)
          → (submit_poll out.0 0 waker polled refused).1 ≡ err not_found)

  left_get :
      (u : MioDriver R) (r : Registration) (fd interest i : ℕ)
      → registrations.get (given_up (refused_left u fd interest) r 0).registrations i
        ≡ (if 0 == i then none else registrations.get u.registrations i)
  left_get u r fd interest i =
      registrations.get-remove (refused_left u fd interest).registrations 0 i
      ∙ rw (removed_same u (new_registration fd (interest_of interest)) i) refl

  poll_lost :
      (u : MioDriver R) (waker : ℕ) (polled : Interest) (refused : Option IoError)
      → registrations.get u.registrations 0 ≡ none
      → (submit_poll u 0 waker polled refused).1 ≡ err not_found
  unfolding submit_poll
  poll_lost u waker polled refused lost = rw (lost, submit_poll) refl

  -- When the selector of a `MioDriver` refuses the descriptor of a new handle, the handle that was
  -- made for it is dropped while its token is still 0. So if another handle is registered under the
  -- token 0, and the selector gives up that registration, it is removed: the selector stops watching
  -- that handle, its waiters are taken off the count, and each poll of it for readiness then fails
  -- because it is not found. The other registrations stay.
  pub refused_frees_zero :
      (u : MioDriver R) (r : Registration) (fd interest : ℕ) (mode : RegistrationMode) (e : IoError)
      → registrations.get u.registrations 0 ≡ some r
      → refuses_register u.selector fd (interest_of interest) ≡ some e
      → refuses_deregister u.selector 0 ≡ none
      → LosesZero u r e (new_of_mio u fd interest mode)
  refused_frees_zero u r fd interest mode e found refused given =
      let lost = left_get u r fd interest in
      subst (LosesZero u r e) (sym (refused_drops u r fd interest mode e found refused given)) (
        refl,
        refl,
        refl,
        lost,
        λ waker polled no.
            poll_lost (given_up (refused_left u fd interest) r 0) waker polled no (lost 0),
      )
