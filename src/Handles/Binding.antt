-- ===== src/Handles/Binding.antt =====
-- `InnerRawHandle` (fd_inner.rs): what a change of a handle's mode leaves, and where its polls go.
use zincio.Prelude.{
  ℕ, ◌≡◌, ◌≢◌, ◌⊎◌, inl, inr, refl, ◌∙◌, true, false, ◌&&◌, none, some, Bool-cases, arith,
}
use zincio.Executor.Join.{Poll, ready}
use zincio.Io.Stream.{IoError, unsupported, IoResult, ok, err, IoResult-cases}
use zincio.Handles.{
  RegistrationMode, poll, completion, is_completion, same_mode, Driver, InnerRawHandle,
  effective_mode, uses_completion, rebind_mode, poll_op, poll_op_poll,
}

same_mode_lem : (m n : RegistrationMode) → same_mode m n ≡ true → m ≡ n
same_mode_lem poll poll e = refl
same_mode_lem poll completion e = cc
same_mode_lem completion poll e = cc
same_mode_lem completion completion e = refl

differs : (m n : RegistrationMode) → same_mode m n ≡ false → m ≢ n
differs poll poll e same = cc
differs poll completion e same = cc
differs completion poll e same = cc
differs completion completion e same = cc

mode-cases : (m : RegistrationMode) → (m ≡ completion) ⊎ (m ≡ poll)
mode-cases poll = inr refl
mode-cases completion = inl refl

module _ {D : Type 0} ⦃driver : Driver D⦄ where
  -- The driver has the handle's token under the handle's mode, which it supports.
  abbrev pub IsBound : D → InnerRawHandle → Type 0
  IsBound d h =
      (driver.mode_of d h.token ≡ some h.mode) × (uses_completion d h ≡ is_completion h.mode)

  effective-supported :
      (d : D) (mode : RegistrationMode)
      → (driver.supports_completion d && is_completion (effective_mode d mode))
        ≡ is_completion (effective_mode d mode)
  unfolding effective_mode
  effective-supported d poll = ground arith
  effective-supported d completion = ground arith

  pub registered-IsBound :
      (d : D) (h : InnerRawHandle) (mode : RegistrationMode) (token : ℕ)
      → (driver.supports_completion d && is_completion mode) ≡ is_completion mode
      → (driver.register d h.handle h.interest mode).1 ≡ ok token
      → IsBound
          (driver.register d h.handle h.interest mode).0
          (record h { token = token; mode = mode })
  unfolding uses_completion
  registered-IsBound d h mode token supported given = (
    driver.register_ok d h.handle h.interest mode token supported given,
    rw (driver.register_supports d h.handle h.interest mode) supported,
  )

  -- The driver between the two calls of a change of the mode.
  abbrev pub freed : D → InnerRawHandle → D
  freed d h = (driver.deregister d h.token).0

  -- The outcomes of a change to `mode`, by the answers of the driver.
  abbrev pub Rebinds :
      D → InnerRawHandle → RegistrationMode → D × InnerRawHandle × IoResult (Unit {0}) → Type 0
  Rebinds d h mode out =
      ((h.mode ≡ mode) × (out ≡ (d, h, ok tt)) × IsBound d h)
      ⊎ ((h.mode ≢ mode)
          × ((e : IoError) × ((driver.deregister d h.token).1 ≡ err e)
              × (out ≡ (freed d h, h, err e))
              × IsBound out.0 h))
      ⊎ ((h.mode ≢ mode)
          × ((driver.deregister d h.token).1 ≡ ok tt)
          × ((e : IoError) × ((driver.register (freed d h) h.handle h.interest mode).1 ≡ err e)
              × (out ≡ ((driver.register (freed d h) h.handle h.interest mode).0, h, err e))
              × (driver.mode_of out.0 h.token ≡ none)))
      ⊎ ((h.mode ≢ mode)
          × ((driver.deregister d h.token).1 ≡ ok tt)
          × ((token : ℕ) × ((driver.register (freed d h) h.handle h.interest mode).1 ≡ ok token)
              × (out ≡ (
                (driver.register (freed d h) h.handle h.interest mode).0,
                record h { token = token; mode = mode },
                ok tt,
              ))
              × IsBound out.0 out.1))

  kept-IsBound :
      (d : D) (h : InnerRawHandle) (e : IoError)
      → IsBound d h
      → (driver.deregister d h.token).1 ≡ err e
      → IsBound (driver.deregister d h.token).0 h
  unfolding uses_completion
  kept-IsBound d h e (registered, supported) f = (
    driver.deregister_err d h.token e h.token f ∙ registered,
    rw (driver.deregister_supports d h.token) supported,
  )

  rebind_keeps :
      (d : D) (h : InnerRawHandle) (requested : RegistrationMode)
      → same_mode h.mode (effective_mode d requested) ≡ true
      → rebind_mode d h requested ≡ (d, h, ok tt)
  unfolding rebind_mode
  rebind_keeps d h requested same = simp same refl

  rebind_fails :
      (d : D) (h : InnerRawHandle) (requested : RegistrationMode) (e : IoError)
      → same_mode h.mode (effective_mode d requested) ≡ false
      → (driver.deregister d h.token).1 ≡ err e
      → rebind_mode d h requested ≡ ((driver.deregister d h.token).0, h, err e)
  unfolding rebind_mode
  rebind_fails d h requested e other f = simp (other, f) refl

  rebind_stops :
      (d : D) (h : InnerRawHandle) (requested : RegistrationMode) (e : IoError)
      → same_mode h.mode (effective_mode d requested) ≡ false
      → (driver.deregister d h.token).1 ≡ ok tt
      → (driver.register (freed d h) h.handle h.interest (effective_mode d requested)).1 ≡ err e
      → rebind_mode d h requested ≡ (
        (driver.register (freed d h) h.handle h.interest (effective_mode d requested)).0,
        h,
        err e,
      )
  unfolding rebind_mode
  rebind_stops d h requested e other f g = simp (other, f, g) refl

  rebind_succeeds :
      (d : D) (h : InnerRawHandle) (requested : RegistrationMode) (token : ℕ)
      → same_mode h.mode (effective_mode d requested) ≡ false
      → (driver.deregister d h.token).1 ≡ ok tt
      → (driver.register (freed d h) h.handle h.interest (effective_mode d requested)).1 ≡ ok token
      → rebind_mode d h requested ≡ (
        (driver.register (freed d h) h.handle h.interest (effective_mode d requested)).0,
        record h { token = token; mode = effective_mode d requested },
        ok tt,
      )
  unfolding rebind_mode
  rebind_succeeds d h requested token other f g = simp (other, f, g) refl

  effective_lem :
      (d : D) (mode : RegistrationMode)
      → is_completion (effective_mode d mode) ≡ is_completion mode && driver.supports_completion d
  unfolding effective_mode
  effective_lem d poll = ground arith
  effective_lem d completion = ground arith

  -- A change of the mode of a handle that is registered under its mode, to the requested mode, which
  -- is polling where the driver lacks completion. When that is the handle's mode, the driver and the
  -- handle stay as they are. Else the driver is asked to give up the registration; if it refuses, the
  -- handle is as before and still registered. Then it is asked to register the handle's descriptor
  -- with its interest under the new mode; if it refuses, the handle keeps its token and mode, but the
  -- token is not registered; else the handle has the new token and mode and is registered under them.
  pub rebind_outcomes :
      (d : D) (h : InnerRawHandle) (requested : RegistrationMode)
      → IsBound d h
      → (mode : RegistrationMode) × (is_completion mode
          ≡ is_completion requested && driver.supports_completion d)
        × Rebinds d h mode (rebind_mode d h requested)
  rebind_outcomes d h requested bound =
      (effective_mode d requested, effective_lem d requested, rebinds)
    where
      mode : RegistrationMode
      mode = effective_mode d requested

      supported :
          (driver.supports_completion (freed d h) && is_completion mode) ≡ is_completion mode
      supported = rw (driver.deregister_supports d h.token) (effective-supported d requested)

      rebinds : Rebinds d h mode (rebind_mode d h requested)
      rebinds = elim (Bool-cases (same_mode h.mode mode)) [
        | inl same ↦ inl (same_mode_lem h.mode mode same, rebind_keeps d h requested same, bound)
        | inr other ↦ elim (IoResult-cases (driver.deregister d h.token).1) [
          | inr (e, f) ↦
              rw (rebind_fails d h requested e other f)
                (inr (inl (differs h.mode mode other, (e, f, refl, kept-IsBound d h e bound f))))
          | inl (u, f) ↦
              elim (IoResult-cases (driver.register (freed d h) h.handle h.interest mode).1) [
                | inl (token, g) ↦ rw (rebind_succeeds d h requested token other f g) (
                    inr (
                      inr (
                        inr (
                          differs h.mode mode other,
                          f,
                          (token, g, refl, registered-IsBound (freed d h) h mode token supported g),
                        ))))
                | inr (e, g) ↦ rw (rebind_stops d h requested e other f g) (
                    inr (
                      inr (
                        inl (
                          differs h.mode mode other,
                          f,
                          (
                            e,
                            g,
                            refl,
                            driver.register_err (freed d h) h.handle h.interest mode e h.token g
                                ∙ driver.deregister_ok d h.token f,
                          ),
                        ))))
              ]
        ]
      ]

  -- A poll of an operation on a handle that is registered under its mode goes to the side of that
  -- mode; a poll for readiness is refused on a handle for completion, and else goes to the same side.
  pub polls_agree :
      {A : Type 0} (d : D) (h : InnerRawHandle) (by_completion by_poll : Poll (IoResult A))
      → IsBound d h
      → ((h.mode ≡ completion)
          × (poll_op d h by_completion by_poll ≡ by_completion)
          × (poll_op_poll d h by_poll ≡ ready (err unsupported)))
        ⊎ ((h.mode ≡ poll)
            × (poll_op d h by_completion by_poll ≡ by_poll)
            × (poll_op_poll d h by_poll ≡ by_poll))
  unfolding poll_op poll_op_poll
  polls_agree d h by_completion by_poll bound = elim (mode-cases h.mode) [
    | inl e ↦ inl (e, rw bound.1 (rw e refl), rw bound.1 (rw e refl))
    | inr e ↦ inr (e, rw bound.1 (rw e refl), rw bound.1 (rw e refl))
  ]
