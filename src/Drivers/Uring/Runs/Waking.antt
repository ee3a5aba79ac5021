-- ===== src/Drivers/Uring/Runs/Waking.antt =====
-- No wake-up of a poll is lost, and no entry waits in the submission queue unnoticed, in any state
-- that `UringDriver` reaches.
use zincio.Prelude.{
  ℕ, ◌-◌, ◌<◌, ◌≡◌, ◌≢◌, ◌^◌, inl, inr, refl, sym, subst, Bool, true, false, Option, none, some, [],
  ◌∷◌, ◌++◌, In-append_right, Option-cases, Bool-cases,
}
use zincio.Handles.{RegistrationMode}
use zincio.Handles as Mode
use zincio.Executor.Join.{update_waker_slot}
use zincio.Drivers.Slab.{Slab}
use zincio.Drivers.Uring.{
  Ring, Entry, Submitted, push_entry, encode_poll_key, UringDriver, PollRegistration,
  HandleRegistration, completion, poll, Completion,
}
use zincio.Drivers.Uring.Pushing.{IsNoted, push_entry-IsNoted, push_entry-cases}
use zincio.Drivers.Uring.Polls.{
  waiter, armed, set_side, submit_poll, push_poll_add, register_handle_with_mode, deregister_handle,
  Interest,
}
use zincio.Drivers.Uring.Polls.Armed.{
  IsArmed, IsGood, InFlight, insert-IsArmed, remove-IsArmed, store-IsArmed, more-IsArmed,
  set_side-IsGood, clear_side-IsGood, more-IsGood,
}
use zincio.Drivers.Uring.Runs.Pushes.{
  MayPush, submits-MayPush, takes-MayPush, sets-MayPush, ignores-MayPush,
}
use zincio.Drivers.Uring.Queue.{Drained}
use zincio.Drivers.Uring.Collect.{submit_interrupt, Calls, interrupt_entry, should_flush}
use zincio.Drivers.Uring.Runs.Drains.{covers-IsArmed, completed-covers, drain_cq-IsArmed}
use zincio.Drivers.Uring.Collect.Noted.{
  given_some, given_none, submit_interrupt-is, drain_cq-ring, drained, Collects, flush-cases,
  wait-cases, Collects-IsNoted, submit_pending-outstanding,
}
use zincio.Drivers.Uring.Runs.{
  IsComplete, DriverStep, registers, deregisters, polls, submits, takes, sets, ignores, flushes,
  waits, DriverReach, new, starts, next,
}

-- What is kept by every step.
module _ {R C : Type 0} ⦃registrations : Slab HandleRegistration R⦄ where
  pub record IsSound (u : UringDriver R C) : Type 0 where
    pub noted : IsNoted u.ring
    pub armed : IsArmed u.registrations u.ring.outstanding

pushed-IsArmed :
    {R : Type 0} ⦃registrations : Slab HandleRegistration R⦄ (rs : R) (r : Ring) (s : Submitted)
    (e : Entry)
    → IsArmed rs r.outstanding
    → IsArmed rs (push_entry r s e).0.outstanding
pushed-IsArmed rs r s e safe = elim (push_entry-cases r s e) [
  | inl (pushed, given) ↦ rw pushed (more-IsArmed rs r.outstanding (e ∷ []) safe)
  | inr (same, refused) ↦ rw same safe
]

module _ {R C : Type 0} ⦃registrations : Slab HandleRegistration R⦄ where
  MayPush-IsSound : (u v : UringDriver R C) → IsSound u → MayPush u v → IsSound v
  MayPush-IsSound u v sound (same, inl ring) = record {
    noted = subst (λ r. IsNoted r) (sym ring) sound.noted;
    armed = rw same (rw ring sound.armed);
  }
  MayPush-IsSound u v sound (same, inr (s, e, ring)) = record {
    noted = subst (λ r. IsNoted r) (sym ring) (push_entry-IsNoted u.ring s e sound.noted);
    armed = rw same (rw ring (pushed-IsArmed u.registrations u.ring s e sound.armed));
  }

  registers-IsSound :
      (u : UringDriver R C) (fd : ℕ) (mode : RegistrationMode)
      → IsSound u
      → registrations.next_key u.registrations < 2 ^ 62 - 1
      → IsSound (register_handle_with_mode u fd mode).0
  unfolding register_handle_with_mode
  registers-IsSound u fd Mode.completion sound room = record {
    noted = sound.noted;
    armed =
        insert-IsArmed u.registrations u.ring.outstanding completion sound.armed room
          (λ t p write e. absurd (not_poll p e));
  }
    where
      not_poll : (p : PollRegistration) → completion ≢ poll p
      not_poll p e = cc
  registers-IsSound u fd Mode.poll sound room = record {
    noted = sound.noted;
    armed =
        insert-IsArmed u.registrations u.ring.outstanding (poll fresh) sound.armed room
          (λ t p write e.
            subst (λ q. IsGood u.ring.outstanding t q write) (same_poll fresh p e)
              (unarmed t write));
  }
    where
      fresh : PollRegistration
      fresh = record {
        fd = fd;
        waiter_read = none;
        poll_read_armed = false;
        waiter_write = none;
        poll_write_armed = false;
      }

      same_poll : (p q : PollRegistration) → poll p ≡ poll q → p ≡ q
      same_poll p q e = cc

      unarmed : (t : ℕ) (write : Bool) → IsGood u.ring.outstanding t fresh write
      unarmed t true = record { awaited = λ k e. cc; in_flight = λ e. cc }
      unarmed t false = record { awaited = λ k e. cc; in_flight = λ e. cc }

  deregisters-IsSound :
      (u : UringDriver R C) (t : ℕ) → IsSound u → IsSound (deregister_handle u t).0
  unfolding deregister_handle
  deregisters-IsSound u t sound = elim (Option-cases (registrations.get u.registrations t)) [
    | inl nothing ↦ rw (nothing, deregister_handle) sound
    | inr (r, found) ↦
        rw (found, deregister_handle)
          (record {
            noted = sound.noted;
            armed = remove-IsArmed u.registrations u.ring.outstanding t sound.armed;
          })
  ]

  -- The poll of a side that was not armed.
  push_poll_add-IsSound :
      (u : UringDriver R C) (t : ℕ) (p : PollRegistration) (write : Bool) (waker : Option ℕ)
      (s : Submitted)
      → IsSound u
      → registrations.get u.registrations t ≡ some (poll p)
      → IsSound (push_poll_add u t (set_side p write waker true) write s).0
  unfolding push_poll_add
  push_poll_add-IsSound u t p write waker s sound found = elim (push_entry-cases u.ring s entry) [
    | inl (pushed, given) ↦
        rw (given, push_poll_add)
          (record {
            noted = push_entry-IsNoted u.ring s entry sound.noted;
            armed = rw pushed (
                store-IsArmed u.registrations (u.ring.outstanding ++ entry ∷ []) t (poll p)
                  (set_side p write waker true)
                  (more-IsArmed u.registrations u.ring.outstanding (entry ∷ []) sound.armed) found
                  (set_side-IsGood (u.ring.outstanding ++ entry ∷ []) t p write waker true
                    (λ v.
                      more-IsGood u.ring.outstanding (entry ∷ []) t p v
                        (sound.armed.good t p found v))
                    (λ k e. refl)
                    (λ e. (
                      entry,
                      In-append_right entry u.ring.outstanding (entry ∷ []) (inl refl),
                      refl,
                    ))));
          })
    | inr (same, (e, refused)) ↦
        rw (refused, push_poll_add)
          (record {
            noted = push_entry-IsNoted u.ring s entry sound.noted;
            armed = rw same (
                store-IsArmed u.registrations u.ring.outstanding t (poll p)
                  (set_side (set_side p write waker true) write none false) sound.armed found
                  (λ v.
                    subst (λ q. IsGood u.ring.outstanding t q v) (sym (set_twice p write waker))
                      (clear_side-IsGood u.ring.outstanding t p write (sound.armed.good t p found)
                        v)));
          })
  ]
    where
      entry : Entry
      entry = record { user_data = encode_poll_key t write; memory = [] }

      set_twice :
          (p : PollRegistration) (write : Bool) (waker : Option ℕ)
          → set_side (set_side p write waker true) write none false ≡ set_side p write none false
      set_twice p true waker = refl
      set_twice p false waker = refl

  polls-IsSound :
      (u : UringDriver R C) (t waker : ℕ) (interest : Interest) (s : Submitted)
      → IsSound u
      → IsSound (submit_poll u t waker interest s).0
  unfolding submit_poll
  polls-IsSound u t waker interest s sound =
      elim (Option-cases (registrations.get u.registrations t)) [
        | inl nothing ↦ rw (nothing, submit_poll) sound
        | inr (completion, found) ↦ rw (found, submit_poll) sound
        | inr (poll p, found) ↦
            rw (found, submit_poll)
              (elim (Bool-cases (armed p interest.is_writable)) [
                | inl is_armed ↦ rw is_armed (record {
                  noted = sound.noted;
                  armed =
                      store-IsArmed u.registrations u.ring.outstanding t (poll p)
                        (set_side p interest.is_writable
                          (update_waker_slot (waiter p interest.is_writable) waker) true)
                        sound.armed found
                        (set_side-IsGood u.ring.outstanding t p interest.is_writable _ true
                          (sound.armed.good t p found) (λ k e. refl)
                          (λ e.
                            (sound.armed.good t p found interest.is_writable).in_flight is_armed));
                })
                | inr unarmed ↦
                    rw unarmed (push_poll_add-IsSound u t p interest.is_writable _ s sound found)
              ])
      ]

module _ {R C : Type 0} ⦃registrations : Slab HandleRegistration R⦄
    ⦃completions : Slab Completion C⦄ where
  Collects-IsSound :
      (u v : UringDriver R C) (wait_for_one timeout : Bool) (calls : Calls)
      → IsSound u
      → IsComplete u.ring.outstanding calls
      → Collects u wait_for_one timeout calls v
      → IsSound v
  Collects-IsSound u v wait_for_one timeout calls sound complete collects = record {
    noted = Collects-IsNoted u v wait_for_one timeout calls sound.noted collects;
    armed = elim collects [
      | inl refused ↦
          rw refused (rw (submit_pending-outstanding u.ring wait_for_one timeout calls) sound.armed)
      | inr (inl same) ↦ rw same after
      | inr (inr again) ↦ rw again (pushed-IsArmed _ _ calls.interrupt_room interrupt_entry after)
    ];
  }
    where
      d : Drained R C
      d = drained u wait_for_one timeout calls

      after : IsArmed d.driver.registrations d.driver.ring.outstanding
      after = rw (drain_cq-ring _ calls.completed) (
          drain_cq-IsArmed _ calls.completed calls.outstanding (
            covers-IsArmed u.registrations u.ring.outstanding _ sound.armed
              (completed-covers u.ring.outstanding calls complete)))

  DriverStep-IsSound : (u v : UringDriver R C) → IsSound u → DriverStep u v → IsSound v
  DriverStep-IsSound u v sound (registers fd mode room is) =
      subst (λ w. IsSound w) (sym is) (registers-IsSound u fd mode sound room)
  DriverStep-IsSound u v sound (deregisters t is) =
      subst (λ w. IsSound w) (sym is) (deregisters-IsSound u t sound)
  DriverStep-IsSound u v sound (polls t waker interest s is) =
      subst (λ w. IsSound w) (sym is) (polls-IsSound u t waker interest s sound)
  DriverStep-IsSound u v sound (submits build s waker is) =
      subst (λ w. IsSound w) (sym is) (MayPush-IsSound u _ sound (submits-MayPush u build s waker))
  DriverStep-IsSound u v sound (takes t is) =
      subst (λ w. IsSound w) (sym is) (MayPush-IsSound u _ sound (takes-MayPush u t))
  DriverStep-IsSound u v sound (sets t waker is) =
      subst (λ w. IsSound w) (sym is) (MayPush-IsSound u _ sound (sets-MayPush u t waker))
  DriverStep-IsSound u v sound (ignores t memory is) =
      subst (λ w. IsSound w) (sym is) (MayPush-IsSound u _ sound (ignores-MayPush u t memory))
  DriverStep-IsSound u v sound (flushes calls c complete run is) =
      subst (λ w. IsSound w) (sym is)
        (Collects-IsSound u c.driver false false calls sound complete (flush-cases u calls c run))
  DriverStep-IsSound u v sound (waits timeout calls c complete run is) =
      subst (λ w. IsSound w) (sym is)
        (Collects-IsSound u c.driver true timeout calls sound complete
          (wait-cases u timeout calls c run))

  new-IsSound :
      (u : UringDriver R C) (entries : ℕ) (s : Submitted) → new entries s ≡ some u → IsSound u
  unfolding new
  new-IsSound u entries s h = elim (Option-cases (submit_interrupt empty_ring s)) [
    | inl panics ↦ absurd (given_none (new entries s) u (rw (panics, new) refl) h)
    | inr (r, again) ↦
        subst (λ v. IsSound v)
          (sym (given_some (new entries s) (driver r) u (rw (again, new) refl) h))
          (record {
            noted =
                subst (λ v. IsNoted v) (submit_interrupt-is empty_ring r s again)
                  (push_entry-IsNoted empty_ring s interrupt_entry (λ unset. refl));
            armed = record {
              small = λ t x at. absurd (nothing t x at);
              good = λ t p at. absurd (nothing t (poll p) at);
            };
          })
  ]
    where
      empty_ring : Ring
      empty_ring = record {
        outstanding = [];
        unsubmitted = 0;
        entries = entries;
        pending_submissions = false;
      }

      driver : Ring → UringDriver R C
      driver r = record {
        ring = r;
        registrations = registrations.new;
        completions = completions.new;
      }

      nothing : (t : ℕ) (x : HandleRegistration) → registrations.get registrations.new t ≢ some x
      nothing t x at = let e = registrations.get-new t in cc

  pub DriverReach-IsSound : (u : UringDriver R C) → DriverReach u → IsSound u
  DriverReach-IsSound u (starts _ entries s made) = new-IsSound u entries s made
  DriverReach-IsSound u (next {u = before} reach step) =
      DriverStep-IsSound before u (DriverReach-IsSound before reach) step

  -- In every state that the driver reaches with tokens of registrations below 2 ^ 62 - 1, on a
  -- kernel that takes the timeout of a wait as an argument and that loses no completion, a waker
  -- that waits for a side of a poll registration has a poll for that side in flight.
  pub waiting-InFlight :
      (u : UringDriver R C) (t waker : ℕ) (p : PollRegistration) (write : Bool)
      → DriverReach u
      → registrations.get u.registrations t ≡ some (poll p)
      → waiter p write ≡ some waker
      → InFlight u.ring.outstanding t write
  waiting-InFlight u t waker p write reach found waits_for =
      let good = (DriverReach-IsSound u reach).armed.good t p found write in
      good.in_flight (good.awaited waker waits_for)

  -- In every state that the driver reaches with tokens of registrations below 2 ^ 62 - 1, on a
  -- kernel that takes the timeout of a wait as an argument and that loses no completion, if the
  -- driver asks for no flush, then no entry stands in the submission queue.
  pub not_should_flush :
      (u : UringDriver R C) → DriverReach u → should_flush u ≡ false → u.ring.unsubmitted ≡ 0
  unfolding should_flush
  not_should_flush u reach unset = (DriverReach-IsSound u reach).noted unset
