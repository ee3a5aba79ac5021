-- ===== src/Drivers/Uring/Runs/Pushes.antt =====
-- The calls of `UringDriver` that operations make: they leave the registrations, and push one entry at
-- most.
use zincio.Prelude.{ℕ, ◌≡◌, ◌⊎◌, inl, inr, refl, List, Option-cases}
use zincio.Io.Stream.{IoResult, IoResult-cases}
use zincio.Drivers.Slab.{Slab}
use zincio.Drivers.Uring.{
  Entry, Submitted, push_entry, encode_completion_key, UringDriver, Completion, submit_completion,
  get_completion_result, set_completion_waker, ignore_completion,
}

module _ {R C : Type 0} where
  -- The driver after a call that may push one entry.
  abbrev pub MayPush : UringDriver R C → UringDriver R C → Type 0
  MayPush u v =
      (v.registrations ≡ u.registrations)
      × ((v.ring ≡ u.ring) ⊎ ((s : Submitted) × (e : Entry) × (v.ring ≡ (push_entry u.ring s e).0)))

module _ {R C : Type 0} ⦃completions : Slab Completion C⦄ where
  pub submits-MayPush :
      (u : UringDriver R C) (build : ℕ → IoResult Entry) (s : Submitted) (waker : ℕ)
      → MayPush u (submit_completion u build s waker).0
  unfolding submit_completion
  submits-MayPush u build s waker =
      elim (IoResult-cases (build (encode_completion_key (completions.next_key u.completions)))) [
        | inr (e, refused) ↦ rw (refused, submit_completion) (refl, inl refl)
        | inl (e, built) ↦
            rw (built, submit_completion)
              (elim (IoResult-cases (push_entry u.ring s e).1) [
                | inl (v, given) ↦ rw given (refl, inr (s, e, refl))
                | inr (error, full) ↦ rw full (refl, inr (s, e, refl))
              ])
      ]

  pub takes-MayPush : (u : UringDriver R C) (t : ℕ) → MayPush u (get_completion_result u t).0
  unfolding get_completion_result
  takes-MayPush u t = elim (Option-cases (completions.get u.completions t)) [
    | inl nothing ↦ rw (nothing, get_completion_result) (refl, inl refl)
    | inr (c, found) ↦
        rw (found, get_completion_result)
          (elim (Option-cases c.completed) [
            | inl running ↦ rw running (refl, inl refl)
            | inr (r, finished) ↦ rw finished (refl, inl refl)
          ])
  ]

  pub sets-MayPush :
      (u : UringDriver R C) (t waker : ℕ) → MayPush u (set_completion_waker u t waker)
  unfolding set_completion_waker
  sets-MayPush u t waker = elim (Option-cases (completions.get u.completions t)) [
    | inl nothing ↦ rw (nothing, set_completion_waker) (refl, inl refl)
    | inr (c, found) ↦ rw (found, set_completion_waker) (refl, inl refl)
  ]

  pub ignores-MayPush :
      (u : UringDriver R C) (t : ℕ) (memory : List ℕ) → MayPush u (ignore_completion u t memory)
  unfolding ignore_completion
  ignores-MayPush u t memory = elim (Option-cases (completions.get u.completions t)) [
    | inl nothing ↦ rw (nothing, ignore_completion) (refl, inl refl)
    | inr (c, found) ↦ rw (found, ignore_completion) (refl, inl refl)
  ]
