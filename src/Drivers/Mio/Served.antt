-- ===== src/Drivers/Mio/Served.antt =====
-- What it means that the selector watches every side on which a waiter waits.
use zincio.Prelude.{
  ℕ, ◌≡◌, ◌≢◌, inl, inr, refl, sym, subst, ◌∙◌, Bool, true, false, not, ◌||◌, Option, none, some,
  Option-cases, arith, ℕ_discrete,
}
use zincio.Drivers.Slab.{Slab}
use zincio.Drivers.Uring.Polls.{Interest}
use zincio.Drivers.Mio.{
  Registration, is_some, poll_side, interest_contains, wanted, must_rearm, select, take_ready,
}

abbrev pub waiter_on : Registration → Bool → Option ℕ
waiter_on r true = r.waiter_write
waiter_on r false = r.waiter_read

abbrev pub wants : Interest → Bool → Bool
wants i true = i.is_writable
wants i false = i.is_readable

-- The selector watches that side.
abbrev pub Watches : Option Interest → Bool → Type 0
Watches selected side = (i : Interest) × (selected ≡ some i) × (wants i side ≡ true)

-- One registration, with what the selector has for its token.
pub record IsServed (selected : Option Interest) (r : Registration) : Type 0 where
  pub recorded : (i : Interest) → r.interest ≡ some i → selected ≡ some i
  pub served : (side : Bool) (k : ℕ) → waiter_on r side ≡ some k → Watches selected side

pub contains_side :
    (i w : Interest) (side : Bool)
    → interest_contains i w ≡ true
    → wants w side ≡ true
    → wants i side ≡ true
unfolding interest_contains
contains_side i w true h k = ground arith
contains_side i w false h k = ground arith

contains_self : (i : Interest) → interest_contains i i ≡ true
unfolding interest_contains
contains_self i = ground arith

pub contains_rearmed :
    (r : Registration) (interest : Interest)
    → interest_contains
        (wanted r interest)
        (wanted (record r { interest = some (wanted r interest) }) interest)
      ≡ true
unfolding wanted
contains_rearmed r interest = contains_self (wanted r interest)

abbrev pub fresh : ℕ → Interest → Registration
fresh fd interest = record {
  fd = fd;
  waiter_read = none;
  waiter_write = none;
  interest = some interest;
}

poll_side-wants :
    (on : Bool) (slot : Option ℕ) (waker count k : ℕ)
    → (poll_side on slot waker count).0 ≡ some k
    → (on || is_some slot) ≡ true
unfolding poll_side
poll_side-wants true slot waker count k h = refl
poll_side-wants false none waker count k h = absurd cc
poll_side-wants false (some n) waker count k h = refl

pub waits_wanted :
    (r : Registration) (interest : Interest) (side : Bool) (k : ℕ)
    → waiter_on r side ≡ some k
    → wants (wanted r interest) side ≡ true
unfolding wanted
waits_wanted r interest true k h = ground arith
waits_wanted r interest false k h = ground arith

unnegated : (b : Bool) → not b ≡ false → b ≡ true
unnegated b h = ground arith

-- A registration that is not armed again has a sufficient interest.
pub armed_still :
    (r : Registration) (needed : Interest)
    → must_rearm r needed ≡ false
    → (i : Interest) × (r.interest ≡ some i) × (interest_contains i needed ≡ true)
unfolding must_rearm
armed_still r needed keeps = elim (Option-cases r.interest) [
  | inl nothing ↦ absurd (true_is (subst (λ b. b ≡ false) (rw (nothing, must_rearm) refl) keeps))
  | inr (i, is) ↦ (
    i,
    is,
    unnegated (interest_contains i needed)
        (subst (λ b. b ≡ false) (rw (is, must_rearm) refl) keeps),
  )
]
  where
    true_is : true ≢ false
    true_is e = cc

pub taken_waits :
    (ready : Bool) (waiter : Option ℕ) (k : ℕ)
    → (take_ready ready waiter).0 ≡ some k
    → waiter ≡ some k
unfolding take_ready
taken_waits true waiter k h = absurd cc
taken_waits false waiter k h = h

-- The waiters of a poll whose sides are all watched.
pub polled-IsServed :
    (r : Registration) (interest i : Interest) (selected : Option Interest) (waker n m : ℕ)
    → selected ≡ some i
    → interest_contains i (wanted r interest) ≡ true
    → ((j : Interest) → r.interest ≡ some j → selected ≡ some j)
    → IsServed selected (record r {
      waiter_read = (poll_side interest.is_readable r.waiter_read waker n).0;
      waiter_write = (poll_side interest.is_writable r.waiter_write waker m).0;
    })
unfolding wanted
polled-IsServed r interest i selected waker n m is contains recorded = record {
  recorded = recorded;
  served = by_side;
}
  where
    by_side :
        (side : Bool) (k : ℕ)
        → waiter_on
            (record r {
              waiter_read = (poll_side interest.is_readable r.waiter_read waker n).0;
              waiter_write = (poll_side interest.is_writable r.waiter_write waker m).0;
            })
            side
          ≡ some k
        → Watches selected side
    by_side true k h = (
      i,
      is,
      contains_side i (wanted r interest) true contains
          (poll_side-wants interest.is_writable r.waiter_write waker m k h),
    )
    by_side false k h = (
      i,
      is,
      contains_side i (wanted r interest) false contains
          (poll_side-wants interest.is_readable r.waiter_read waker n k h),
    )

pub select_self :
    (selector : ℕ → Option Interest) (t : ℕ) (o : Option Interest) → select selector t o t ≡ o
select_self selector t o = ground arith

pub select_other :
    (selector : ℕ → Option Interest) (t u : ℕ) (o : Option Interest)
    → t ≢ u
    → select selector t o u ≡ selector u
select_other selector t u o ne = ground arith

module _ {R : Type 0} ⦃registrations : Slab Registration R⦄ where
  abbrev pub AllServed : (ℕ → Option Interest) → R → Type 0
  AllServed selector rs =
      (t : ℕ) (r : Registration) → registrations.get rs t ≡ some r → IsServed (selector t) r

  pub stored-AllServed :
      (selector selector' : ℕ → Option Interest) (rs : R) (t : ℕ) (r r' : Registration)
      → AllServed selector rs
      → registrations.get rs t ≡ some r
      → ((u : ℕ) → t ≢ u → selector' u ≡ selector u)
      → IsServed (selector' t) r'
      → AllServed selector' (registrations.store rs t r')
  stored-AllServed selector selector' rs t r r' served found same good u q at =
      elim (ℕ_discrete t u) [
        | yes e ↦
            subst (λ v. IsServed (selector' v) q) e
              (subst (λ x. IsServed (selector' t) x) (stored_is e) good)
        | no ne ↦ rw (same u ne) (served u q (sym (other ne) ∙ at))
      ]
    where
      stored_is : t ≡ u → r' ≡ q
      stored_is e = ground (arith, registrations.get-store rs t r' u (λ h. cc))

      other : t ≢ u → registrations.get (registrations.store rs t r') u ≡ registrations.get rs u
      other ne = ground (arith, registrations.get-store rs t r' u (λ h. cc))
