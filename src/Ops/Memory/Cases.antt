-- ===== src/Ops/Memory/Cases.antt =====
-- What the calls of an operation do to the completions and to the entries in flight, by the answer.
use zincio.Prelude.{
  ℕ, ◌/◌, ◌%◌, ◌≡◌, ◌≢◌, ◌⊎◌, inl, inr, refl, false, Option, none, some, List, [], ◌∷◌, ◌++◌, ◌==◌,
  arith, Option-cases, Bool-cases, ◌||◌,
}
use zincio.Io.Stream.{IoError, IoResult, ok, err}
use zincio.Executor.Join.{update_waker_slot}
use zincio.Drivers.Slab.{Slab}
use zincio.Drivers.Uring.Pushing.{push_entry-cases}
use zincio.Drivers.Uring.{
  Ring, Submitted, push_entry, decode_token, decode_key_kind, Completion, CompletionResult,
  UringDriver, HandleRegistration, retry, submit_err, submit_completion, get_completion_result,
  set_completion_waker, ignore_completion, drain_completion, interrupt_key, timeout_key,
}
use zincio.Drivers.Uring.Queue.{Drained, drain_entry}
use zincio.Ops.{TokenPoll, poll_submitted, poll_unsubmitted}
use zincio.Ops.Memory.{LiveOp, build_entry}
use zincio.Ops.Memory.Safety.{fresh}
use zincio.Ops.Memory.Fresh.{new_entry}

module _ {R C : Type 0} ⦃completions : Slab Completion C⦄ where
  -- The ring after the entry of a new token was pushed, or not.
  abbrev pushed_ring : UringDriver R C → LiveOp → Submitted → Ring × IoResult (Unit {0})
  pushed_ring u op s = push_entry u.ring s (new_entry u.completions op)

  submit_given :
      (u : UringDriver R C) (op : LiveOp) (s : Submitted) (waker : ℕ)
      → (pushed_ring u op s).1 ≡ ok tt
      → submit_completion u (build_entry op none) s waker ≡ (
        record u {
          ring = (pushed_ring u op s).0;
          completions = completions.insert u.completions (fresh waker);
        },
        retry (completions.next_key u.completions),
      )
  unfolding submit_completion build_entry
  submit_given u op s waker given = rw (given, submit_completion) refl

  submit_refused :
      (u : UringDriver R C) (op : LiveOp) (s : Submitted) (waker : ℕ) (e : IoError)
      → (pushed_ring u op s).1 ≡ err e
      → submit_completion u (build_entry op none) s waker
        ≡ (record u { ring = (pushed_ring u op s).0 }, submit_err e)
  unfolding submit_completion build_entry
  submit_refused u op s waker e refused = rw (refused, submit_completion) refl

  submit_unbuilt :
      (u : UringDriver R C) (op : LiveOp) (s : Submitted) (waker : ℕ) (e : IoError)
      → submit_completion u (build_entry op (some e)) s waker ≡ (u, submit_err e)
  unfolding submit_completion build_entry
  submit_unbuilt u op s waker e = refl

  -- A poll of an operation without a token: nothing changes but the ring, or the token is new.
  abbrev Unsubmitted :
      UringDriver R C → LiveOp → ℕ → UringDriver R C × Option ℕ × TokenPoll → Type 0
  Unsubmitted u op waker out =
      ((out.0.completions ≡ u.completions)
        × (out.0.ring.outstanding ≡ u.ring.outstanding)
        × (out.1 ≡ none))
      ⊎ ((out.0.completions ≡ completions.insert u.completions (fresh waker))
          × (out.0.ring.outstanding ≡ u.ring.outstanding ++ new_entry u.completions op ∷ [])
          × (out.1 ≡ some (completions.next_key u.completions)))

  pub Unsubmitted-cases :
      (u : UringDriver R C) (op : LiveOp) (refused : Option IoError) (s : Submitted) (waker : ℕ)
      → Unsubmitted u op waker (poll_unsubmitted u (build_entry op refused) s waker)
  unfolding poll_unsubmitted
  Unsubmitted-cases u op (some e) s waker =
      rw (submit_unbuilt u op s waker e, poll_unsubmitted)
        (rw (submit_unbuilt u op s waker e) (inl (refl, refl, refl)))
  Unsubmitted-cases u op none s waker =
      elim (push_entry-cases u.ring s (new_entry u.completions op)) [
        | inl (pushed, given) ↦
            rw (submit_given u op s waker given, poll_unsubmitted)
              (rw (submit_given u op s waker given) (inr (refl, pushed, refl)))
        | inr (same, (e, refused)) ↦
            rw (submit_refused u op s waker e refused, poll_unsubmitted)
              (rw (submit_refused u op s waker e refused) (inl (refl, same, refl)))
      ]

  still_running :
      (u : UringDriver R C) (t : ℕ) (c : Completion)
      → completions.get u.completions t ≡ some c
      → c.completed ≡ none
      → get_completion_result u t ≡ (u, none)
  unfolding get_completion_result
  still_running u t c at running = rw (at, get_completion_result) (rw running refl)

  pub has_finished :
      (u : UringDriver R C) (t : ℕ) (c : Completion) (r : CompletionResult)
      → completions.get u.completions t ≡ some c
      → c.completed ≡ some r
      → get_completion_result u t
        ≡ (record u { completions = completions.remove u.completions t }, some r)
  unfolding get_completion_result
  has_finished u t c r at finished = rw (at, get_completion_result) (rw finished refl)

  waker_set :
      (u : UringDriver R C) (t waker : ℕ) (c : Completion)
      → completions.get u.completions t ≡ some c
      → set_completion_waker u t waker ≡ record u {
        completions =
            completions.store u.completions t
              (record c { waiter = update_waker_slot c.waiter waker });
      }
  unfolding set_completion_waker
  waker_set u t waker c at = rw (at, set_completion_waker) refl

  -- A poll of an operation with a token: the result is taken, or the waker is set.
  abbrev Resumed :
      UringDriver R C → ℕ → ℕ → Completion → UringDriver R C × Option ℕ × TokenPoll → Type 0
  Resumed u t waker c out =
      (out.0.ring.outstanding ≡ u.ring.outstanding)
      × (((r : CompletionResult) × (c.completed ≡ some r)
            × (out.0.completions ≡ completions.remove u.completions t)
            × (out.1 ≡ none))
          ⊎ ((out.0.completions
                ≡ completions.store u.completions t
                    (record c { waiter = update_waker_slot c.waiter waker }))
              × (out.1 ≡ some t)))

  pub submitted-cases :
      (u : UringDriver R C) (t waker : ℕ) (c : Completion)
      → completions.get u.completions t ≡ some c
      → Resumed u t waker c (poll_submitted u t waker)
  unfolding poll_submitted
  submitted-cases u t waker c at = elim (Option-cases c.completed) [
    | inl running ↦
        rw (still_running u t c at running, poll_submitted)
          (rw (waker_set u t waker c at) (refl, inr (refl, refl)))
    | inr (r, finished) ↦
        rw (has_finished u t c r at finished, poll_submitted)
          (rw (has_finished u t c r at finished) (refl, inl (r, finished, refl, refl)))
  ]

  pub drop-cases :
      (u : UringDriver R C) (t : ℕ) (memory : List ℕ) (c : Completion)
      → completions.get u.completions t ≡ some c
      → (ignore_completion u t memory).completions
        ≡ completions.store u.completions t (record c { ignored_data = some memory })
  unfolding ignore_completion
  drop-cases u t memory c at = rw (at, ignore_completion) refl

  pub drop_outstanding :
      (u : UringDriver R C) (t : ℕ) (memory : List ℕ)
      → (ignore_completion u t memory).ring.outstanding ≡ u.ring.outstanding
  unfolding ignore_completion
  drop_outstanding u t memory = elim (Option-cases (completions.get u.completions t)) [
    | inl e ↦ rw (e, ignore_completion) refl
    | inr (c, e) ↦ rw (e, ignore_completion) refl
  ]

module _ {R C : Type 0} ⦃registrations : Slab HandleRegistration R⦄
    ⦃completions : Slab Completion C⦄ where
  -- What the drained entry of a completion, and of any other key, does to the completions.
  pub drained_completion :
      (d : Drained R C) (key : ℕ) (result : CompletionResult)
      → key % 4 ≡ 1
      → ((drain_entry d (record { user_data = key; result = result })).driver.completions
          ≡ (drain_completion d.driver.completions (key / 4) result).0)
        × ((drain_entry d (record { user_data = key; result = result })).driver.ring
            ≡ d.driver.ring)
  unfolding drain_entry decode_key_kind decode_token
  drained_completion d key result kind =
      let a : (key == interrupt_key) ≡ false = ground arith in
      let b : (key == timeout_key) ≡ false = ground arith in
      let k : ((key % 4 == 0) || (key % 4 == 2)) ≡ false = ground arith in
      (rw a (rw b (rw k refl)), rw a (rw b (rw k refl)))

  pub drained_other :
      (d : Drained R C) (key : ℕ) (result : CompletionResult)
      → key % 4 ≢ 1
      → ((key % 4 ≢ 3) ⊎ (key ≡ interrupt_key))
      → ((drain_entry d (record { user_data = key; result = result })).driver.completions
          ≡ d.driver.completions)
        × ((drain_entry d (record { user_data = key; result = result })).driver.ring
            ≡ d.driver.ring)
  unfolding drain_entry decode_key_kind decode_token
  drained_other d key result kind has_kind = elim (Bool-cases (key == interrupt_key)) [
    | inl a ↦ (rw a refl, rw a refl)
    | inr a ↦ elim (Bool-cases (key == timeout_key)) [
      | inl b ↦ (rw a (rw b refl), rw a (rw b refl))
      | inr b ↦ elim (Bool-cases ((key % 4 == 0) || (key % 4 == 2))) [
        | inl k ↦ (rw a (rw b (rw k refl)), rw a (rw b (rw k refl)))
        | inr k ↦ absurd (ground arith)
      ]
    ]
  ]
