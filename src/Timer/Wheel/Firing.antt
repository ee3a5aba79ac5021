-- ===== src/Timer/Wheel/Firing.antt =====
-- `advance` as a whole: which timers fire, which stay, and which fire late.
use zincio.Prelude.{
  ℕ, zero, suc, ◌+◌, ◌%◌, ◌≤◌, ◌<◌, ◌≡◌, ◌≢◌, refl, ◌∙◌, ap, inl, inr, [], some, arith, ◌==◌,
  u64_add, u64_add_lem, u64_mod, Bool-cases, In,
}
use zincio.Timer.Levels.{num_levels, slots_per_level}
use zincio.Timer.Slab.{Slab, TimerEntry, Waker}
use zincio.Timer.Wheel.{TimingWheel, insert, refresh_min_expiration}
use zincio.Timer.Wheel.Advance.{sweep, advance}
use zincio.Timer.Wheel.Outcome.{Fate, Fate-origin, SameTimer, Woken, Outcome, sweep-Outcome}
use zincio.Timer.Wheel.Placement.{IsPlaced, sweep-IsPlaced, insert-IsPlaced}
use zincio.Timer.Wheel.Insertion.{entry_for, get-inserted_self, insert_handle, entry_low}
use zincio.Timer.Wheel.Completeness.{Passed, cursor, sweep-clears}
use zincio.Timer.Wheel.Lateness.{sweep-IsStill, sweep-stays}

module _ {S : Type 0} ⦃slab : Slab S⦄ where
  abbrev pub later : TimingWheel S → ℕ → ℕ
  later w ticks = u64_add w.current_tick ticks

  -- An advance by some ticks is the sweep and a refresh, which leaves the timers alone.
  pub advance_sweeps :
      (w : TimingWheel S) (ticks : ℕ)
      → ticks ≢ 0
      → ((advance w ticks).0.entries ≡ (sweep w ticks).0.entries)
        × ((advance w ticks).0.current_tick ≡ (sweep w ticks).0.current_tick)
        × ((advance w ticks).1 ≡ (sweep w ticks).1)
  unfolding advance refresh_min_expiration
  advance_sweeps w ticks some_ticks = elim (Bool-cases (ticks == 0)) [
    | inl e ↦ absurd (some_ticks (ground arith))
    | inr e ↦ rw e (refl, refl, refl)
  ]

  -- An advance moves the clock by the given ticks. At every key it leaves no new timer; a timer
  -- that has gone was due and its waker is in the result; a timer that is left has its waker, tick
  -- and generation unchanged. Every waker in the result is that of a due timer that has gone.
  pub advance_fates :
      (w : TimingWheel S) (ticks : ℕ)
      → ticks ≢ 0
      → ((advance w ticks).0.current_tick ≡ later w ticks)
        × ((i : ℕ)
            → Fate
                (later w ticks)
                (advance w ticks).1
                (slab.get w.entries i)
                (slab.get (advance w ticks).0.entries i))
        × ((x : Waker)
            → In x (advance w ticks).1
            → Woken w (later w ticks) (advance w ticks).0.entries x)
  advance_fates w ticks some_ticks =
      let o = sweep-Outcome w ticks in
      let (same, clock, fired) = advance_sweeps w ticks some_ticks in
      (clock ∙ o.clock, λ i. rw (same, fired) (o.fate i), rw (same, fired) o.woken)

  pub advance_none : (w : TimingWheel S) → advance w 0 ≡ (w, [])
  unfolding advance
  advance_none w = refl

  pub advance_counter :
      (w : TimingWheel S) (ticks : ℕ)
      → (advance w ticks).0.generation_counter ≡ w.generation_counter
  unfolding advance refresh_min_expiration
  advance_counter w ticks = ground (arith, (sweep-Outcome w ticks).counter)

  -- Whatever timer is there after an advance was there before it.
  pub advance_origin :
      (w : TimingWheel S) (ticks i : ℕ) (f : TimerEntry)
      → slab.get (advance w ticks).0.entries i ≡ some f
      → (e : TimerEntry) × (slab.get w.entries i ≡ some e) × SameTimer e f
  advance_origin w zero i f h = (f, rw (advance_none w) at h, (refl, refl, refl))
  advance_origin w (suc n) i f h =
      let (e, before, same) =
        Fate-origin (later w (suc n)) (advance w (suc n)).1 (slab.get w.entries i) f
          (rw h at ((advance_fates w (suc n) (λ z. cc)).1 i)) in
      (e, before, same)

  -- In a wheel that is in order, a due timer that an advance leaves behind stood at level 0, in a
  -- slot that the cursor did not pass.
  pub advance_reaches :
      (w : TimingWheel S) (ticks i : ℕ) (e f : TimerEntry)
      → IsPlaced w
      → ticks ≢ 0
      → slab.get w.entries i ≡ some e
      → slab.get (advance w ticks).0.entries i ≡ some f
      → f.expiration_tick ≤ later w ticks
      → (e.level ≡ 0) × (¬ Passed ticks (cursor w) (later w ticks % slots_per_level) e.slot)
  advance_reaches w ticks i e f p some_ticks before after due = (
    at_bottom,
    λ passed. absurd (
        not_due (
          sweep-clears w ticks p 0 e.slot (p.bounded i e before).1 (inr (refl, passed)) i e left
            at_bottom refl)),
  )
    where
      o : Outcome w (later w ticks) (sweep w ticks)
      o = sweep-Outcome w ticks

      left_f : slab.get (sweep w ticks).0.entries i ≡ some f
      left_f = rw (advance_sweeps w ticks some_ticks).0 at after

      same : f ≡ e
      same = sweep-IsStill w ticks i e f before left_f (omega (arith, o.clock))

      left : slab.get (sweep w ticks).0.entries i ≡ some e
      left = left_f ∙ ap some same

      not_due : ¬ ((sweep w ticks).0.current_tick < e.expiration_tick)
      not_due h = omega (arith, o.clock, ap (λ (x : TimerEntry). x.expiration_tick) same)

      at_bottom : e.level ≡ 0
      at_bottom = elim (Bool-cases (e.level == 0)) [
        | inl z ↦ ground arith
        | inr z ↦ absurd (
            not_due (
              sweep-clears w ticks p e.level e.slot (p.bounded i e before).1
                (inl (ground arith, (p.bounded i e before).0)) i e left refl refl))
      ]

  -- In a wheel that is in order, an advance by 64 ticks or more leaves no due timer behind.
  pub advance_complete :
      (w : TimingWheel S) (ticks i : ℕ) (f : TimerEntry)
      → IsPlaced w
      → slots_per_level ≤ ticks
      → slab.get (advance w ticks).0.entries i ≡ some f
      → later w ticks < f.expiration_tick
  advance_complete w ticks i f p long after = elim (Bool-cases (f.level == 0)) [
    | inl low ↦ omega (
      arith,
      o.clock,
      sweep-clears w ticks p 0 f.slot in_range.1 (inr (refl, inl long)) i f left (ground arith)
          refl,
    )
    | inr high ↦ omega (
      arith,
      o.clock,
      sweep-clears w ticks p f.level f.slot in_range.1 (inl (ground arith, in_range.0)) i f left
          refl refl,
    )
  ]
    where
      o : Outcome w (later w ticks) (sweep w ticks)
      o = sweep-Outcome w ticks

      left : slab.get (sweep w ticks).0.entries i ≡ some f
      left = rw (advance_sweeps w ticks (λ z. omega arith)).0 at after

      in_range : (f.level < num_levels) × (f.slot < slots_per_level)
      in_range = (sweep-IsPlaced w ticks p).bounded i f left

  -- In a wheel that is in order, a timer at level 0 in a slot that the cursor does not pass is
  -- still there after the advance, whether or not it is due.
  pub advance_misses :
      (w : TimingWheel S) (ticks i : ℕ) (e : TimerEntry)
      → IsPlaced w
      → ticks ≢ 0
      → slab.get w.entries i ≡ some e
      → e.level ≡ 0
      → ¬ Passed ticks (cursor w) (later w ticks % slots_per_level) e.slot
      → slab.get (advance w ticks).0.entries i ≡ some e
  advance_misses w ticks i e p some_ticks before low missed =
      rw (advance_sweeps w ticks some_ticks).0 (sweep-stays w ticks i e p before low missed)

  -- The slot of a timer counts from the time of its insertion, the cursor from the start of the
  -- wheel. So in a wheel that is in order a timer inserted `delay` ticks ahead, with `delay` below
  -- the cursor's place in its round, is not woken by an advance that reaches its tick and stays
  -- within the round.
  pub insert_fires_late :
      (w : TimingWheel S) (waker delay ticks : ℕ)
      → IsPlaced w
      → w.current_tick + delay + ticks < u64_mod
      → delay < cursor w
      → delay ≤ ticks
      → ticks ≢ 0
      → cursor w + ticks < slots_per_level
      → let (w', handle) = insert w waker (w.current_tick + delay) in
        let after = (advance w' ticks).0 in
        (e : TimerEntry) × (slab.get after.entries handle.slab_index ≡ some e)
        × (e.waker ≡ waker)
        × (e.expiration_tick ≤ after.current_tick)
  insert_fires_late w waker delay ticks p room behind reached some_ticks within = (
    entry_for w waker (w.current_tick + delay),
    advance_misses w' ticks key (entry_for w waker (w.current_tick + delay))
        (insert-IsPlaced w waker _ p) some_ticks
        (get-inserted_self w waker (w.current_tick + delay)) at.0 missed,
    refl,
    omega (arith, (advance_fates w' ticks some_ticks).0, clock, now),
  )
    where
      w' : TimingWheel S
      w' = (insert w waker (w.current_tick + delay)).0

      key : ℕ
      key = (insert w waker (w.current_tick + delay)).1.slab_index

      at :
          ((entry_for w waker (w.current_tick + delay)).level ≡ 0)
          × ((entry_for w waker (w.current_tick + delay)).slot ≡ delay)
      at = entry_low w waker delay (omega arith)

      clock : w'.current_tick ≡ w.current_tick
      clock = (insert_handle w waker (w.current_tick + delay)).2

      now : later w' ticks ≡ w.current_tick + ticks
      now = rw clock (u64_add_lem w.current_tick ticks (omega arith))

      missed :
          ¬ Passed ticks
            (cursor w')
            (later w' ticks % slots_per_level)
            (entry_for w waker (w.current_tick + delay)).slot
      missed h = ground (arith, at, clock, now)
