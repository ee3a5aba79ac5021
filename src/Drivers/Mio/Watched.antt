-- ===== src/Drivers/Mio/Watched.antt =====
-- The selector watches every side of a registration on which a waiter waits, in every state that
-- `MioDriver` reaches.
use zincio.Prelude.{
  ℕ, ◌≡◌, ◌≢◌, inl, inr, refl, sym, subst, ◌∙◌, Bool, true, false, Option, none, some, List, [],
  ◌∷◌, Option-cases, Bool-cases, arith, ℕ_discrete,
}
use zincio.Io.Stream.{IoError}
use zincio.Drivers.Slab.{Slab}
use zincio.Drivers.Uring.Polls.{Interest}
use zincio.Drivers.Mio.{
  Registration, MioDriver, interest_contains, wanted, must_rearm, select, take_ready, Event,
  register_handle, reregister_handle, deregister_handle, set_waiters, submit_poll, wake_token,
  wake_event, wait_timeout,
}
use zincio.Drivers.Mio.Served.{
  AllServed, IsServed, Watches, armed_still, contains_rearmed, contains_side, fresh,
  polled-IsServed, select_other, select_self, stored-AllServed, taken_waits, waiter_on,
  waits_wanted,
}

module _ {R : Type 0} ⦃registrations : Slab Registration R⦄ where
  -- What `MioDriver` is called for; `refused` is what the selector answers.
  pub data MioStep (u v : MioDriver R) : Type 0 where
    registers :
        (fd : ℕ) (interest : Interest) (refused : Option IoError)
        → v ≡ (register_handle u fd interest refused).0
        → MioStep u v
    -- The new interest is for every side that waits.
    reregisters :
        (t : ℕ) (interest : Interest) (refused : Option IoError)
        → ((r : Registration)
            → registrations.get u.registrations t ≡ some r
            → interest_contains interest (wanted r interest) ≡ true)
        → v ≡ (reregister_handle u t interest refused).0
        → MioStep u v
    deregisters :
        (t : ℕ) (refused : Option IoError) → v ≡ (deregister_handle u t refused).0 → MioStep u v
    polls :
        (t waker : ℕ) (interest : Interest) (refused : Option IoError)
        → v ≡ (submit_poll u t waker interest refused).0
        → MioStep u v
    waits : (events : List Event) → v ≡ (wait_timeout (u, []) events).0 → MioStep u v

  pub data MioReach : MioDriver R → Type 0 where
    starts : (u : MioDriver R) → ((t : ℕ) → registrations.get u.registrations t ≡ none) → MioReach u
    next : {u v : MioDriver R} → MioReach u → MioStep u v → MioReach v

  abbrev Sound : MioDriver R → Type 0
  Sound u = AllServed u.selector u.registrations

  registers-served :
      (u : MioDriver R) (fd : ℕ) (interest : Interest) (refused : Option IoError)
      → Sound u
      → Sound (register_handle u fd interest refused).0
  unfolding register_handle
  registers-served u fd interest (some e) served t r at = served t r (kept at)
    where
      kept :
          registrations.get
              (registrations.remove
                (registrations.insert u.registrations (fresh fd interest))
                (registrations.next_key u.registrations))
              t
            ≡ some r
          → registrations.get u.registrations t ≡ some r
      kept h = ground (
        arith,
        registrations.get-remove (registrations.insert u.registrations (fresh fd interest))
            (registrations.next_key u.registrations) t,
        registrations.get-insert u.registrations (fresh fd interest) t,
      )
  registers-served u fd interest none served t r at =
      elim (ℕ_discrete (registrations.next_key u.registrations) t) [
        | yes e ↦
            subst
              (λ v.
                IsServed
                  (select u.selector (registrations.next_key u.registrations) (some interest) v) r)
              e
              (rw (select_self u.selector (registrations.next_key u.registrations) (some interest))
                (subst (λ x. IsServed (some interest) x) (fresh_is e) fresh_served))
        | no ne ↦
            rw
              (select_other u.selector (registrations.next_key u.registrations) t (some interest)
                ne)
              (served t r (sym (other ne) ∙ at))
      ]
    where
      fresh_served : IsServed (some interest) (fresh fd interest)
      fresh_served = record { recorded = λ i h. h; served = nobody }
        where
          nobody :
              (side : Bool) (k : ℕ)
              → waiter_on (fresh fd interest) side ≡ some k
              → Watches (some interest) side
          nobody true k h = absurd cc
          nobody false k h = absurd cc

      fresh_is : registrations.next_key u.registrations ≡ t → (fresh fd interest) ≡ r
      fresh_is e = ground (arith, registrations.get-insert u.registrations (fresh fd interest) t)

      other :
          registrations.next_key u.registrations ≢ t
          → registrations.get (registrations.insert u.registrations (fresh fd interest)) t
            ≡ registrations.get u.registrations t
      other ne = ground (arith, registrations.get-insert u.registrations (fresh fd interest) t)

  reregisters-served :
      (u : MioDriver R) (t : ℕ) (interest : Interest) (refused : Option IoError)
      → Sound u
      → ((r : Registration)
          → registrations.get u.registrations t ≡ some r
          → interest_contains interest (wanted r interest) ≡ true)
      → Sound (reregister_handle u t interest refused).0
  unfolding reregister_handle
  reregisters-served u t interest refused served covers =
      elim (Option-cases (registrations.get u.registrations t)) [
        | inl nothing ↦ rw (nothing, reregister_handle) served
        | inr (r, found) ↦
            rw (found, reregister_handle)
              (elim (Option-cases refused) [
                | inr (e, no_call) ↦ rw no_call served
                | inl accepted ↦ rw accepted (
                    stored-AllServed u.selector (select u.selector t (some interest))
                      u.registrations t r (record r { interest = some interest }) served found
                      (λ v ne. select_other u.selector t v (some interest) ne)
                      (rw (select_self u.selector t (some interest)) (covered r (covers r found))))
              ])
      ]
    where
      covered :
          (r : Registration)
          → interest_contains interest (wanted r interest) ≡ true
          → IsServed (some interest) (record r { interest = some interest })
      covered r contains = record { recorded = λ i h. h; served = by_side }
        where
          by_side :
              (side : Bool) (k : ℕ)
              → waiter_on (record r { interest = some interest }) side ≡ some k
              → Watches (some interest) side
          by_side true k h = (
            interest,
            refl,
            contains_side interest (wanted r interest) true contains
                (waits_wanted r interest true k h),
          )
          by_side false k h = (
            interest,
            refl,
            contains_side interest (wanted r interest) false contains
                (waits_wanted r interest false k h),
          )

  deregisters-served :
      (u : MioDriver R) (t : ℕ) (refused : Option IoError)
      → Sound u
      → Sound (deregister_handle u t refused).0
  unfolding deregister_handle
  deregisters-served u t refused served =
      elim (Option-cases (registrations.get u.registrations t)) [
        | inl nothing ↦ rw (nothing, deregister_handle) served
        | inr (r, found) ↦
            rw (found, deregister_handle)
              (elim (Option-cases refused) [
                | inr (e, no_call) ↦ rw no_call served
                | inl accepted ↦ rw accepted (λ v q at.
                    rw (select_other u.selector t v none (λ e. gone v q at e))
                      (served v q (kept v q at)))
              ])
      ]
    where
      kept :
          (v : ℕ) (q : Registration)
          → registrations.get (registrations.remove u.registrations t) v ≡ some q
          → registrations.get u.registrations v ≡ some q
      kept v q at = ground (arith, registrations.get-remove u.registrations t v)

      gone :
          (v : ℕ) (q : Registration)
          → registrations.get (registrations.remove u.registrations t) v ≡ some q
          → t ≢ v
      gone v q at e = ground (arith, registrations.get-remove u.registrations t v)

  polls-served :
      (u : MioDriver R) (t waker : ℕ) (interest : Interest) (refused : Option IoError)
      → Sound u
      → Sound (submit_poll u t waker interest refused).0
  unfolding submit_poll set_waiters
  polls-served u t waker interest refused served =
      elim (Option-cases (registrations.get u.registrations t)) [
        | inl nothing ↦ rw (nothing, submit_poll) served
        | inr (r, found) ↦
            rw (found, submit_poll)
              (elim (Bool-cases (must_rearm r (wanted r interest))) [
                | inl rearms ↦ rw rearms (elim (Option-cases refused) [
                  | inr (e, no_call) ↦ rw no_call served
                  | inl accepted ↦ rw accepted (
                      stored-AllServed u.selector (select u.selector t (some (wanted r interest)))
                        u.registrations t r _ served found
                        (λ v ne. select_other u.selector t v (some (wanted r interest)) ne)
                        (rw (select_self u.selector t (some (wanted r interest))) (
                          polled-IsServed (record r { interest = some (wanted r interest) })
                            interest (wanted r interest) (some (wanted r interest)) waker _ _ refl
                            (contains_rearmed r interest) (λ j h. h))))
                ])
                | inr keeps ↦ rw keeps (
                    let (i, is, contains) = still_armed r keeps in
                    stored-AllServed u.selector u.selector u.registrations t r _ served found
                      (λ v ne. refl)
                      (polled-IsServed r interest i (u.selector t) waker _ _
                        ((served t r found).recorded i is) contains (served t r found).recorded))
              ])
      ]
    where
      still_armed :
          (r : Registration)
          → must_rearm r (wanted r interest) ≡ false
          → (i : Interest) × (r.interest ≡ some i)
            × (interest_contains i (wanted r interest) ≡ true)
      still_armed r keeps = armed_still r (wanted r interest) keeps

  wake_token-served :
      (u : MioDriver R) (woken : List ℕ) (t : ℕ) (read write : Bool)
      → Sound u
      → Sound (wake_token (u, woken) t read write).0
  unfolding wake_token
  wake_token-served u woken t read write served =
      elim (Option-cases (registrations.get u.registrations t)) [
        | inl nothing ↦ rw (nothing, wake_token) served
        | inr (r, found) ↦
            rw (found, wake_token)
              (stored-AllServed u.selector u.selector u.registrations t r (left r) served found
                (λ v ne. refl) (left_served r (served t r found)))
      ]
    where
      left : Registration → Registration
      left r = record r {
        waiter_read = (take_ready read r.waiter_read).0;
        waiter_write = (take_ready write r.waiter_write).0;
        interest = none;
      }

      left_served :
          (r : Registration) → IsServed (u.selector t) r → IsServed (u.selector t) (left r)
      left_served r good = record { recorded = λ i h. absurd (no_interest i h); served = by_side }
        where
          no_interest : (i : Interest) → none ≢ some i
          no_interest i h = cc

          by_side :
              (side : Bool) (k : ℕ) → waiter_on (left r) side ≡ some k → Watches (u.selector t) side
          by_side true k h = good.served true k (taken_waits write r.waiter_write k h)
          by_side false k h = good.served false k (taken_waits read r.waiter_read k h)

  wait_timeout-served :
      (st : MioDriver R × List ℕ) (events : List Event)
      → Sound st.0
      → Sound (wait_timeout st events).0
  unfolding wait_timeout wake_event
  wait_timeout-served st [] served = served
  wait_timeout-served st (e ∷ es) served =
      wait_timeout-served (wake_event st e) es (elim (Option-cases e.token) [
        | inl interrupt ↦ rw (interrupt, wake_event) served
        | inr (t, is) ↦ rw (is, wake_event) (wake_token-served st.0 st.1 t _ _ served)
      ])

  MioStep-served : (u v : MioDriver R) → Sound u → MioStep u v → Sound v
  MioStep-served u v served (registers fd interest refused is) =
      subst (λ w. Sound w) (sym is) (registers-served u fd interest refused served)
  MioStep-served u v served (reregisters t interest refused covers is) =
      subst (λ w. Sound w) (sym is) (reregisters-served u t interest refused served covers)
  MioStep-served u v served (deregisters t refused is) =
      subst (λ w. Sound w) (sym is) (deregisters-served u t refused served)
  MioStep-served u v served (polls t waker interest refused is) =
      subst (λ w. Sound w) (sym is) (polls-served u t waker interest refused served)
  MioStep-served u v served (waits events is) =
      subst (λ w. Sound w) (sym is) (wait_timeout-served (u, []) events served)

  MioReach-served : (u : MioDriver R) → MioReach u → Sound u
  MioReach-served u (starts _ vacant) = λ t r at. absurd (nothing t r (vacant t) at)
    where
      nothing :
          (t : ℕ) (r : Registration)
          → registrations.get u.registrations t ≡ none
          → registrations.get u.registrations t ≢ some r
      nothing t r a b = cc
  MioReach-served u (next {u = before} reach step) =
      MioStep-served before u (MioReach-served before reach) step

  -- In every state that the driver reaches from one without registrations, by calls that register a
  -- handle anew only for all sides that wait, the selector watches each side of a registration on
  -- which a waker waits, whatever sides other polls and events were for.
  pub waiter_on-Watches :
      (u : MioDriver R) (t waker : ℕ) (r : Registration) (side : Bool)
      → MioReach u
      → registrations.get u.registrations t ≡ some r
      → waiter_on r side ≡ some waker
      → Watches (u.selector t) side
  waiter_on-Watches u t waker r side reach found waits_for =
      (MioReach-served u reach t r found).served side waker waits_for
