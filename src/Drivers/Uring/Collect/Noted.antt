-- ===== src/Drivers/Uring/Collect/Noted.antt =====
-- An entry that stands in the submission queue is never forgotten: `should_flush` says so.
use zincio.Prelude.{
  ℕ, ◌≡◌, ◌≢◌, ◌⊎◌, inl, inr, refl, sym, subst, ap, ◌∙◌, Bool, true, false, not, ◌||◌, Option, none,
  some, List, [], ◌∷◌, ◌==◌, Bool-cases, Option-cases, arith,
}
use zincio.Io.Stream.{IoResult, ok, err, IoResult-cases}
use zincio.Drivers.Slab.{Slab}
use zincio.Drivers.Uring.{
  Ring, Submitted, submit, push_entry, Completion, HandleRegistration, UringDriver,
}
use zincio.Drivers.Uring.Pushing.{IsNoted, submit-IsNoted, push_entry-IsNoted}
use zincio.Drivers.Uring.Queue.{CompletionEntry, Drained, drain_entry, drain_cq}
use zincio.Drivers.Uring.Collect.{
  Calls, submit_ring, submit_pending, submit_interrupt, interrupt_entry, Collected, is_interrupted,
  finish_drain, settle, collect_completions, flush, wait,
}

-- A kernel that takes the timeout as an argument of its call.
submit_ring_ext :
    (r : Ring) (wait_for_one timeout : Bool) (calls : Calls)
    → submit_ring r true wait_for_one timeout calls ≡ submit r calls.main
unfolding submit_ring
submit_ring_ext r true true calls = refl
submit_ring_ext r true false calls = refl
submit_ring_ext r false true calls = refl
submit_ring_ext r false false calls = refl

submit_pending-IsNoted :
    (r : Ring) (wait_for_one timeout : Bool) (calls : Calls)
    → IsNoted r
    → IsNoted (submit_pending r true wait_for_one timeout calls).0
unfolding submit_pending
submit_pending-IsNoted r wait_for_one timeout calls noted =
    elim (Bool-cases (wait_for_one || not (r.unsubmitted == 0))) [
      | inr idle ↦ rw (idle, submit_pending) (λ unset. ground arith)
      | inl submits ↦
          rw (submits, submit_pending)
            (rw (submit_ring_ext r wait_for_one timeout calls)
              (elim (IoResult-cases (submit r calls.main).1) [
                | inl (u, given) ↦ rw given (λ unset. ground arith)
                | inr (e, refused) ↦ rw refused (
                    rw (submit_ring_ext r wait_for_one timeout calls)
                      (submit-IsNoted r calls.main noted))
              ]))
    ]

-- The entries that the driver does not push itself stay outstanding.
pub submit_pending-outstanding :
    (r : Ring) (wait_for_one timeout : Bool) (calls : Calls)
    → (submit_pending r true wait_for_one timeout calls).0.outstanding ≡ r.outstanding
unfolding submit_pending submit
submit_pending-outstanding r wait_for_one timeout calls =
    elim (Bool-cases (wait_for_one || not (r.unsubmitted == 0))) [
      | inr idle ↦ rw (idle, submit_pending) refl
      | inl submits ↦
          rw (submits, submit_pending)
            (rw (submit_ring_ext r wait_for_one timeout calls)
              (elim (IoResult-cases (submit r calls.main).1) [
                | inl (u, given) ↦ rw given (rw (submit_ring_ext r wait_for_one timeout calls) refl)
                | inr (e, refused) ↦
                    rw refused (rw (submit_ring_ext r wait_for_one timeout calls) refl)
              ]))
    ]

some_is : {A : Type 0} (a b : A) → some a ≡ some b → a ≡ b
some_is a b e = cc

pub given_some : {A : Type 0} (o : Option A) (a b : A) → o ≡ some a → o ≡ some b → b ≡ a
given_some o a b h k = cc

pub given_none : {A : Type 0} (o : Option A) (b : A) → o ≡ none → o ≢ some b
given_none o b h k = cc

none_is : {A : Type 0} (b : A) → none ≢ some b
none_is b e = cc

pub submit_interrupt-is :
    (r r' : Ring) (s : Submitted)
    → submit_interrupt r s ≡ some r'
    → (push_entry r s interrupt_entry).0 ≡ r'
unfolding submit_interrupt
submit_interrupt-is r r' s h = elim (IoResult-cases (push_entry r s interrupt_entry).1) [
  | inl (u, given) ↦
      some_is (push_entry r s interrupt_entry).0 r'
        (subst (λ o. o ≡ some r') (rw (given, submit_interrupt) refl) h)
  | inr (e, refused) ↦
      absurd (none_is r' (subst (λ o. o ≡ some r') (rw (refused, submit_interrupt) refl) h))
]

module _ {R C : Type 0} ⦃registrations : Slab HandleRegistration R⦄
    ⦃completions : Slab Completion C⦄ where
  drain_entry-ring :
      (d : Drained R C) (e : CompletionEntry) → (drain_entry d e).driver.ring ≡ d.driver.ring
  unfolding drain_entry
  drain_entry-ring d e = ground arith

  pub drain_cq-ring :
      (d : Drained R C) (es : List CompletionEntry) → (drain_cq d es).driver.ring ≡ d.driver.ring
  unfolding drain_cq
  drain_cq-ring d [] = refl
  drain_cq-ring d (e ∷ es) = drain_cq-ring (drain_entry d e) es ∙ drain_entry-ring d e

  -- What is drained of a run whose submission succeeds.
  abbrev pub drained : UringDriver R C → Bool → Bool → Calls → Drained R C
  drained u wait_for_one timeout calls =
      drain_cq
        (record {
          driver = record u {
            ring = record (submit_pending u.ring true wait_for_one timeout calls).0 {
              outstanding = calls.outstanding;
            };
          };
          wakers = [];
          interrupt = false;
        })
        calls.completed

  -- The driver after a run: nothing was drained, or the completion queue was, and the interrupt is
  -- submitted again or not.
  abbrev pub Collects : UringDriver R C → Bool → Bool → Calls → UringDriver R C → Type 0
  Collects u wait_for_one timeout calls v =
      (v ≡ record u { ring = (submit_pending u.ring true wait_for_one timeout calls).0 })
      ⊎ (v ≡ (drained u wait_for_one timeout calls).driver)
      ⊎ (v ≡ record (drained u wait_for_one timeout calls).driver {
        ring =
            (push_entry (drained u wait_for_one timeout calls).driver.ring calls.interrupt_room
              interrupt_entry).0;
      })

  abbrev collected : UringDriver R C → List ℕ → IoResult (Unit {0}) → Collected R C
  collected u wakers result = record { driver = u; wakers = wakers; result = result }

  finish_drain-cases :
      (d : Drained R C) (s : Submitted) (c : Collected R C)
      → finish_drain d s ≡ some c
      → (c.driver ≡ d.driver)
        ⊎ (c.driver ≡ record d.driver { ring = (push_entry d.driver.ring s interrupt_entry).0 })
  unfolding finish_drain
  finish_drain-cases d s c h = elim (Bool-cases d.interrupt) [
    | inr calm ↦ inl (
        ap (λ x. x.driver)
          (given_some (finish_drain d s) (collected d.driver d.wakers (ok tt)) c
            (rw (calm, finish_drain) refl) h))
    | inl interrupted ↦ elim (Option-cases (submit_interrupt d.driver.ring s)) [
      | inl panics ↦
          absurd
            (given_none (finish_drain d s) c (rw (interrupted, finish_drain) (rw panics refl)) h)
      | inr (r, again) ↦ inr (
          ap (λ x. x.driver)
            (given_some (finish_drain d s)
              (collected (record d.driver { ring = r }) d.wakers (ok tt)) c
              (rw (interrupted, finish_drain) (rw again refl)) h)
          ∙ ap (λ x. record d.driver { ring = x })
              (sym (submit_interrupt-is d.driver.ring r s again)))
    ]
  ]

  collect-cases :
      (u : UringDriver R C) (wait_for_one timeout : Bool) (calls : Calls) (c : Collected R C)
      → collect_completions u true wait_for_one timeout calls ≡ some c
      → Collects u wait_for_one timeout calls c.driver
  unfolding collect_completions
  collect-cases u wait_for_one timeout calls c h =
      elim (IoResult-cases (submit_pending u.ring true wait_for_one timeout calls).1) [
        | inl (v, given) ↦
            elim (finish_drain-cases (drained u wait_for_one timeout calls) calls.interrupt_room c
              (subst (λ o. o ≡ some c) (rw (given, collect_completions) refl) h)) [
                | inl same ↦ inr (inl same)
                | inr again ↦ inr (inr again)
              ]
        | inr (e, refused) ↦ inl (
            ap (λ x. x.driver)
              (given_some (collect_completions u true wait_for_one timeout calls)
                (collected
                  (record u { ring = (submit_pending u.ring true wait_for_one timeout calls).0 }) []
                  (err e))
                c (rw (refused, collect_completions) refl) h))
      ]

  settle-is : (o : Option (Collected R C)) (c : Collected R C) → settle o ≡ some c → o ≡ some c
  unfolding settle
  settle-is none c h = absurd (none_is c h)
  settle-is (some d) c h = elim (IoResult-cases d.result) [
    | inl (u, good) ↦ same_some (
        given_some (settle (some d)) d c
          (rw (good, settle) (ap (λ x. some (record d { result = x })) good)) h)
    | inr (e, bad) ↦ elim (Bool-cases (is_interrupted e)) [
      | inl calm ↦ same_some (
          given_some (settle (some d)) d c
            (rw (bad, settle) (rw calm (ap (λ x. some (record d { result = x })) bad))) h)
      | inr panics ↦ absurd (given_none (settle (some d)) c (rw (bad, settle) (rw panics refl)) h)
    ]
  ]
    where
      same_some : c ≡ d → some d ≡ some c
      same_some e = cc

  pub flush-cases :
      (u : UringDriver R C) (calls : Calls) (c : Collected R C)
      → flush u true calls ≡ some c
      → Collects u false false calls c.driver
  unfolding flush
  flush-cases u calls c h = collect-cases u false false calls c (settle-is _ c h)

  pub wait-cases :
      (u : UringDriver R C) (timeout : Bool) (calls : Calls) (c : Collected R C)
      → wait u true timeout calls ≡ some c
      → Collects u true timeout calls c.driver
  unfolding wait
  wait-cases u timeout calls c h = collect-cases u true timeout calls c (settle-is _ c h)

  pub Collects-IsNoted :
      (u v : UringDriver R C) (wait_for_one timeout : Bool) (calls : Calls)
      → IsNoted u.ring
      → Collects u wait_for_one timeout calls v
      → IsNoted v.ring
  Collects-IsNoted u v wait_for_one timeout calls noted collects = elim collects [
    | inl refused ↦ subst (λ x. IsNoted x.ring) (sym refused) submitted
    | inr (inl same) ↦ subst (λ x. IsNoted x.ring) (sym same) after
    | inr (inr again) ↦
        subst (λ x. IsNoted x.ring) (sym again)
          (push_entry-IsNoted (drained u wait_for_one timeout calls).driver.ring
            calls.interrupt_room interrupt_entry after)
  ]
    where
      submitted : IsNoted (submit_pending u.ring true wait_for_one timeout calls).0
      submitted = submit_pending-IsNoted u.ring wait_for_one timeout calls noted

      after : IsNoted (drained u wait_for_one timeout calls).driver.ring
      after = subst (λ r. IsNoted r) (sym (drain_cq-ring _ calls.completed)) submitted
