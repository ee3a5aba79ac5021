-- ===== src/Timer/Wheel/Outcome.antt =====
-- What `advance` does to each timer: it fires if and only if it leaves, never before its tick, and a
-- timer that stays keeps its waker, its tick and its generation.
use zincio.Prelude.{
  ℕ, ◌≤◌, ◌≡◌, refl, sym, inl, inr, List, [], ◌∷◌, ◌++◌, Option, none, some, arith, ◌==◌, u64_add,
  Bool-cases, ==→eq, ==_refl, ◌≢◌, subst, In, In-append_left, In-append_right, In-append,
}
use zincio.Timer.Slab.{Slab, TimerEntry, Waker}
use zincio.Timer.Wheel.{TimingWheel}
use zincio.Timer.Wheel.Advance.{Sweep, move_entry, expire_or_move, sweep_slot, sweep}
use zincio.Timer.Wheel.Sweeps.{expire_or_move_cases, sweep_slot_keep, sweep_keep}

abbrev pub SameTimer : TimerEntry → TimerEntry → Type 0
SameTimer e f =
    (f.waker ≡ e.waker) × (f.expiration_tick ≡ e.expiration_tick) × (f.generation ≡ e.generation)

-- The timer at a key before and after: no timer appears, one that leaves was due and is woken, and
-- one that stays is the same timer.
abbrev pub Fate : ℕ → List Waker → Option TimerEntry → Option TimerEntry → Type 0
Fate now expired none none = Unit {0}
Fate now expired none (some f) = ⊥
Fate now expired (some e) none = (e.expiration_tick ≤ now) × In e.waker expired
Fate now expired (some e) (some f) = SameTimer e f

Fate-self : (now : ℕ) (o : Option TimerEntry) → Fate now [] o o
Fate-self now none = tt
Fate-self now (some e) = (refl, refl, refl)

Fate-more :
    (now : ℕ) (ex more : List Waker) (o p : Option TimerEntry)
    → Fate now ex o p
    → Fate now (ex ++ more) o p
Fate-more now ex more none none f = tt
Fate-more now ex more none (some q) f = f
Fate-more now ex more (some e) none f = (f.0, In-append_left e.waker ex more f.1)
Fate-more now ex more (some e) (some q) f = f

Fate-expire :
    (now : ℕ) (ex : List Waker) (o : Option TimerEntry) (f : TimerEntry)
    → f.expiration_tick ≤ now
    → Fate now ex o (some f)
    → Fate now (ex ++ f.waker ∷ []) o none
Fate-expire now ex none f due h = tt
Fate-expire now ex (some e) f due h =
    (omega arith, In-append_right e.waker ex (f.waker ∷ []) (inl (sym h.0)))

Fate-move :
    (now : ℕ) (ex : List Waker) (o : Option TimerEntry) (f : TimerEntry) (l s : ℕ)
    → Fate now ex o (some f)
    → Fate now ex o (some (record f { level = l; slot = s }))
Fate-move now ex none f l s h = h
Fate-move now ex (some e) f l s h = h

pub Fate-origin :
    (now : ℕ) (ex : List Waker) (o : Option TimerEntry) (f : TimerEntry)
    → Fate now ex o (some f)
    → (e : TimerEntry) × (o ≡ some e) × SameTimer e f
Fate-origin now ex none f h = absurd h
Fate-origin now ex (some e) f h = (e, refl, h)

module _ {S : Type 0} ⦃slab : Slab S⦄ where
  -- A due timer of the wheel `w` that is no longer in the slab `es`.
  abbrev pub Woken : TimingWheel S → ℕ → S → Waker → Type 0
  Woken w now es x =
      (i : ℕ) × (e : TimerEntry) × (slab.get w.entries i ≡ some e)
      × (e.waker ≡ x)
      × (e.expiration_tick ≤ now)
      × (slab.get es i ≡ none)

  pub record Outcome (w : TimingWheel S) (now : ℕ) (st : Sweep S) : Type 0 where
    pub clock : st.0.current_tick ≡ now
    pub heap : st.0.expiration_heap ≡ w.expiration_heap
    pub counter : st.0.generation_counter ≡ w.generation_counter
    pub fate : (i : ℕ) → Fate now st.1 (slab.get w.entries i) (slab.get st.0.entries i)
    pub woken : (x : Waker) → In x st.1 → Woken w now st.0.entries x

  pub Outcome-start :
      (w : TimingWheel S) (now : ℕ) → Outcome w now (record w { current_tick = now }, [])
  Outcome-start w now = record {
    clock = refl;
    heap = refl;
    counter = refl;
    fate = λ i. Fate-self now (slab.get w.entries i);
    woken = λ x m. absurd m;
  }

  module _ {w : TimingWheel S} {now : ℕ} {st : Sweep S} (before : Outcome w now st) (index : ℕ)
      {f : TimerEntry} (found : slab.get st.0.entries index ≡ some f) where
    present : slab.get st.0.entries index ≢ none
    present e = cc

    expire-Fate :
        f.expiration_tick ≤ now
        → (i : ℕ)
        → Fate now
            (st.1 ++ f.waker ∷ [])
            (slab.get w.entries i)
            (slab.get (slab.remove st.0.entries index) i)
    expire-Fate due i = rw (slab.get-remove st.0.entries index i) (elim (Bool-cases (index == i)) [
      | inl e ↦ rw e (
          subst (λ k. Fate now (st.1 ++ f.waker ∷ []) (slab.get w.entries k) none) (==→eq _ _ e)
            (Fate-expire now st.1 (slab.get w.entries index) f due
              (rw found at (before.fate index))))
      | inr e ↦ rw e (Fate-more now st.1 (f.waker ∷ []) _ _ (before.fate i))
    ])

    expire-Woken :
        f.expiration_tick ≤ now
        → (x : Waker) → In x (st.1 ++ f.waker ∷ [])
        → Woken w now (slab.remove st.0.entries index) x
    expire-Woken due x m = elim (In-append x st.1 (f.waker ∷ []) m) [
      | inl old ↦
          let (i, e, at_start, same, was_due, gone) = before.woken x old in
          (i, e, at_start, same, was_due, ground (arith, slab.get-remove st.0.entries index i))
      | inr last ↦
          let (e, at_start, same) =
            Fate-origin now st.1 (slab.get w.entries index) f (rw found at (before.fate index)) in
          (
            index,
            e,
            at_start,
            ground arith,
            omega arith,
            rw (slab.get-remove st.0.entries index index, ==_refl index),
          )
    ]

    move-Fate :
        (l s i : ℕ)
        → Fate now st.1
            (slab.get w.entries i)
            (slab.get (slab.store st.0.entries index (record f { level = l; slot = s })) i)
    move-Fate l s i =
        rw (slab.get-store st.0.entries index (record f { level = l; slot = s }) i present)
          (elim (Bool-cases (index == i)) [
            | inl e ↦ rw e (
                subst
                  (λ k.
                    Fate now st.1 (slab.get w.entries k) (some (record f { level = l; slot = s })))
                  (==→eq _ _ e)
                  (Fate-move now st.1 (slab.get w.entries index) f l s
                    (rw found at (before.fate index))))
            | inr e ↦ rw e (before.fate i)
          ])

    move-Woken :
        (l s : ℕ) (x : Waker)
        → In x st.1
        → Woken w now (slab.store st.0.entries index (record f { level = l; slot = s })) x
    move-Woken l s x m =
        let (i, e, at_start, same, was_due, gone) = before.woken x m in
        (
          i,
          e,
          at_start,
          same,
          was_due,
          ground (
            arith,
            slab.get-store st.0.entries index (record f { level = l; slot = s }) i present,
          ),
        )

  expire_or_move-Outcome :
      (w : TimingWheel S) (now index : ℕ) (st : Sweep S)
      → Outcome w now st
      → Outcome w now (expire_or_move st index)
  unfolding move_entry
  expire_or_move-Outcome w now index st o =
      expire_or_move_cases (Outcome w now) st index (λ _. o)
        (λ e found due.
          let due' : e.expiration_tick ≤ now = omega (arith, o.clock) in
          record {
            clock = o.clock;
            heap = o.heap;
            counter = o.counter;
            fate = expire-Fate o index found due';
            woken = expire-Woken o index found due';
          })
        (λ e found later. record {
          clock = o.clock;
          heap = o.heap;
          counter = o.counter;
          fate = move-Fate o index found _ _;
          woken = move-Woken o index found _ _;
        })

  pub sweep_slot-Outcome :
      (w : TimingWheel S) (now level slot : ℕ) (st : Sweep S)
      → Outcome w now st
      → Outcome w now (sweep_slot level slot st)
  sweep_slot-Outcome w now =
      sweep_slot_keep (Outcome w now)
        (λ level slot v ex o. record {
          clock = o.clock;
          heap = o.heap;
          counter = o.counter;
          fate = o.fate;
          woken = o.woken;
        })
        (expire_or_move-Outcome w now)

  pub sweep-Outcome :
      (w : TimingWheel S) (ticks : ℕ) → Outcome w (u64_add w.current_tick ticks) (sweep w ticks)
  sweep-Outcome w ticks =
      sweep_keep (Outcome w (u64_add w.current_tick ticks))
        (sweep_slot-Outcome w (u64_add w.current_tick ticks)) w ticks (Outcome-start w _)
