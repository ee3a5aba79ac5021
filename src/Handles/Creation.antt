-- ===== src/Handles/Creation.antt =====
-- `InnerRawHandle::new` (fd_inner.rs): what it asks of the driver, and the handle or error it gives.
use zincio.Prelude.{
  subst, ℕ, ◌≡◌, ◌⊎◌, if◌then◌else◌, inl, inr, refl, ◌∙◌, ◌&&◌, Option, none, some, arith,
}
use zincio.Io.Stream.{IoError, not_connected, IoResult, ok, err, IoResult-cases}
use zincio.Handles.{
  RegistrationMode, poll, completion, is_completion, Driver, InnerRawHandle, effective_mode,
  new_with_driver_and_mode, new_with_mode, default_mode, new, uses_completion, drop_handle,
}
use zincio.Handles.Binding.{IsBound, registered-IsBound}

abbrev pub made : ℕ → ℕ → ℕ → RegistrationMode → InnerRawHandle
made handle interest token mode = record {
  handle = handle;
  token = token;
  interest = interest;
  mode = mode;
}

module _ {D : Type 0} ⦃driver : Driver D⦄ where
  -- The mode that the driver is asked for.
  abbrev best_mode : D → RegistrationMode
  best_mode d = if driver.supports_completion d then completion else poll

  -- The outcomes of a new handle in a runtime, by the answer of the driver.
  abbrev pub Creates : D → ℕ → ℕ → RegistrationMode → Option D × IoResult InnerRawHandle → Type 0
  Creates d handle interest mode out =
      ((e : IoError) × ((driver.register d handle interest mode).1 ≡ err e)
        × (out ≡ (some (driver.deregister (driver.register d handle interest mode).0 0).0, err e)))
      ⊎ ((token : ℕ) × (h : InnerRawHandle) × ((driver.register d handle interest mode).1
            ≡ ok token)
          × (out ≡ (some (driver.register d handle interest mode).0, ok h))
          × (h ≡ made handle interest token mode)
          × IsBound (driver.register d handle interest mode).0 h
          × (uses_completion (driver.register d handle interest mode).0 h
              ≡ driver.supports_completion d))

  best_lem : (d : D) → effective_mode d (default_mode (some d)) ≡ best_mode d
  unfolding effective_mode default_mode
  best_lem d = ground arith

  best_supported : (d : D) → is_completion (best_mode d) ≡ driver.supports_completion d
  best_supported d = ground arith

  asked_refused :
      (d : D) (handle interest : ℕ) (e : IoError)
      → (driver.register d handle interest (effective_mode d (default_mode (some d)))).1 ≡ err e
      → new (some d) handle interest ≡ (
        some
            (driver.deregister
              (driver.register d handle interest (effective_mode d (default_mode (some d)))).0
              0).0,
        err e,
      )
  unfolding new new_with_mode new_with_driver_and_mode drop_handle
  asked_refused d handle interest e f = rw (f, new_with_driver_and_mode) refl

  new_refused :
      (d : D) (handle interest : ℕ) (e : IoError)
      → (driver.register d handle interest (best_mode d)).1 ≡ err e
      → new (some d) handle interest
        ≡ (some (driver.deregister (driver.register d handle interest (best_mode d)).0 0).0, err e)
  new_refused d handle interest e =
      subst
        (λ m.
          (driver.register d handle interest m).1 ≡ err e
          → new (some d) handle interest
            ≡ (some (driver.deregister (driver.register d handle interest m).0 0).0, err e))
        (best_lem d) (asked_refused d handle interest e)

  asked_given :
      (d : D) (handle interest token : ℕ)
      → (driver.register d handle interest (effective_mode d (default_mode (some d)))).1 ≡ ok token
      → new (some d) handle interest ≡ (
        some (driver.register d handle interest (effective_mode d (default_mode (some d)))).0,
        ok (made handle interest token (effective_mode d (default_mode (some d)))),
      )
  unfolding new new_with_mode new_with_driver_and_mode
  asked_given d handle interest token f = rw (f, new_with_driver_and_mode) refl

  new_given :
      (d : D) (handle interest token : ℕ)
      → (driver.register d handle interest (best_mode d)).1 ≡ ok token
      → new (some d) handle interest ≡ (
        some (driver.register d handle interest (best_mode d)).0,
        ok (made handle interest token (best_mode d)),
      )
  new_given d handle interest token =
      subst
        (λ m.
          (driver.register d handle interest m).1 ≡ ok token
          → new (some d) handle interest
            ≡ (some (driver.register d handle interest m).0, ok (made handle interest token m)))
        (best_lem d) (asked_given d handle interest token)

  new_none : (handle interest : ℕ) → new {D = D} none handle interest ≡ (none, err not_connected)
  unfolding new new_with_mode
  new_none handle interest = refl

  -- A new handle: outside of a runtime it is refused. Inside, the driver is asked to register the
  -- descriptor with the interest, under completion exactly when it supports that. When it refuses,
  -- the result is its error, after the token 0 was deregistered. Else the handle has the descriptor,
  -- the interest, the mode and the token that the driver gave, is registered under its mode, and
  -- uses completion exactly when the driver supports it.
  pub new_outcomes :
      (current : Option D) (handle interest : ℕ)
      → ((current ≡ none) × (new current handle interest ≡ (none, err not_connected)))
        ⊎ ((d : D) × (mode : RegistrationMode) × (current ≡ some d)
            × (is_completion mode ≡ driver.supports_completion d)
            × Creates d handle interest mode (new current handle interest))
  new_outcomes none handle interest = inl (refl, new_none handle interest)
  new_outcomes (some d) handle interest = inr (d, best_mode d, refl, best_supported d, created)
    where
      supported :
          (driver.supports_completion d && is_completion (best_mode d))
          ≡ is_completion (best_mode d)
      supported = ground arith

      created : Creates d handle interest (best_mode d) (new (some d) handle interest)
      created = elim (IoResult-cases (driver.register d handle interest (best_mode d)).1) [
        | inr (e, f) ↦ inl (e, f, new_refused d handle interest e f)
        | inl (token, f) ↦
            let bound =
              registered-IsBound d (made handle interest 0 (best_mode d)) (best_mode d) token
                supported f in
            inr (
              token,
              made handle interest token (best_mode d),
              f,
              new_given d handle interest token f,
              refl,
              bound,
              bound.1 ∙ best_supported d,
            )
      ]
