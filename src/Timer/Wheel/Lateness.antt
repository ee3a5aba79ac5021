-- ===== src/Timer/Wheel/Lateness.antt =====
-- A timer that `advance` does not reach stays where it is, due or not.
use zincio.Prelude.{
  ℕ, zero, suc, ◌+◌, ◌-◌, ◌%◌, ◌≤◌, ◌<◌, ◌≡◌, ◌≢◌, refl, ◌∙◌, inl, inr, ◌⊎◌, List, [], ◌∷◌, some,
  arith, leb, u64_add, Bool-cases, count, dec_lt, dec_le,
}
use zincio.Timer.Levels.{slots_per_level, calculate_level_and_slot}
use zincio.Timer.Slab.{Slab, TimerEntry}
use zincio.Timer.Wheel.{TimingWheel, set_slot}
use zincio.Timer.Wheel.Advance.{
  Sweep, move_entry, expire_or_move, sweep_timers, sweep_slot, sweep_slots, cascade_level,
  cascade_down, cascade_all_levels, process_slots_at_level_0, process_passed, sweep,
}
use zincio.Timer.Wheel.Sweeps.{expire_or_move_cases, sweep_slot_keep, sweep_keep}
use zincio.Timer.Wheel.Placement.{IsPlaced, sweep_slot-IsPlaced}
use zincio.Timer.Wheel.Completeness.{Passed, cursor}

module _ {S : Type 0} ⦃slab : Slab S⦄ where
  -- A due timer that is left stands where it stood at the start.
  abbrev pub IsStill : S → TimingWheel S → Type 0
  IsStill es w =
      (i : ℕ) (e f : TimerEntry)
      → slab.get es i ≡ some e
      → slab.get w.entries i ≡ some f
      → f.expiration_tick ≤ w.current_tick
      → f ≡ e

  expire_or_move-IsStill :
      (es : S) (index : ℕ) (st : Sweep S) → IsStill es st.0 → IsStill es (expire_or_move st index).0
  unfolding move_entry
  expire_or_move-IsStill es index st c =
      expire_or_move_cases (λ v. IsStill es v.0) st index (λ _. c)
        (λ e found due i f g h k d. ground (arith, slab.get-remove st.0.entries index i, c i f g))
        (λ e found later i f g h k d.
          let (l', s') = calculate_level_and_slot (e.expiration_tick - st.0.current_tick) in
          ground (
            arith,
            slab.get-store st.0.entries index (record e { level = l'; slot = s' }) i (λ n. cc),
            c i f g,
          ))

  pub sweep-IsStill : (w : TimingWheel S) (ticks : ℕ) → IsStill w.entries (sweep w ticks).0
  sweep-IsStill w ticks =
      sweep_keep (λ v. IsStill w.entries v.0)
        (sweep_slot_keep (λ v. IsStill w.entries v.0) (λ l s v ex c. c)
          (expire_or_move-IsStill w.entries))
        w ticks (λ i e f g h d. cc)

  -- The timer `e` stands at the key `i` of a wheel that is in order.
  abbrev Stays : ℕ → TimerEntry → Sweep S → Type 0
  Stays i e st = IsPlaced st.0 × (slab.get st.0.entries i ≡ some e)

  expire_or_move-skips :
      (i index : ℕ) (st : Sweep S)
      → i ≢ index
      → slab.get (expire_or_move st index).0.entries i ≡ slab.get st.0.entries i
  unfolding move_entry
  expire_or_move-skips i index st other =
      expire_or_move_cases (λ v. slab.get v.0.entries i ≡ slab.get st.0.entries i) st index
        (λ _. refl) (λ e found due. ground (arith, slab.get-remove st.0.entries index i))
        (λ e found later.
          let (l', s') = calculate_level_and_slot (e.expiration_tick - st.0.current_tick) in
          ground (
            arith,
            slab.get-store st.0.entries index (record e { level = l'; slot = s' }) i (λ n. cc),
          ))

  sweep_timers-skips :
      (i : ℕ) (st : Sweep S) (todo : List ℕ)
      → count i todo ≡ 0
      → slab.get (sweep_timers st todo).0.entries i ≡ slab.get st.0.entries i
  unfolding sweep_timers
  sweep_timers-skips i st [] h = refl
  sweep_timers-skips i st (j ∷ rest) h =
      sweep_timers-skips i (expire_or_move st j) rest (ground arith)
      ∙ expire_or_move-skips i j st (ground arith)

  sweep_slot-Stays :
      (i : ℕ) (e : TimerEntry) (l s : ℕ) (st : Sweep S)
      → (l ≢ e.level) ⊎ (s ≢ e.slot)
      → Stays i e st
      → Stays i e (sweep_slot l s st)
  sweep_slot-Stays i e l s st other (p, h) = (sweep_slot-IsPlaced l s st p, skipped)
    where
      skipped : slab.get (sweep_slot l s st).0.entries i ≡ some e
      skipped =
          unfold sweep_slot in
          sweep_timers-skips i (record st.0 { wheels = set_slot st.0.wheels l s [] }, st.1)
            (st.0.wheels l s) (ground (arith, p.placed i l s))
          ∙ h

  sweep_slots-Stays :
      (i : ℕ) (e : TimerEntry) (l from rounds : ℕ) (st : Sweep S)
      → (l ≢ e.level) ⊎ (e.slot < from) ⊎ (from + rounds ≤ e.slot)
      → Stays i e st
      → Stays i e (sweep_slots l from rounds st)
  unfolding sweep_slots
  sweep_slots-Stays i e l from zero st o h = h
  sweep_slots-Stays i e l from (suc rounds) st o h =
      sweep_slots-Stays i e l (from + 1) rounds (sweep_slot l from st) (ground arith)
        (sweep_slot-Stays i e l from st (ground arith) h)

  cascade_down-Stays :
      (i : ℕ) (e : TimerEntry) (top : ℕ) (st : Sweep S)
      → e.level ≡ 0
      → Stays i e st
      → Stays i e (cascade_down top st)
  unfolding cascade_down cascade_level
  cascade_down-Stays i e zero st o h = h
  cascade_down-Stays i e (suc top) st o h =
      cascade_down-Stays i e top (sweep_slots (suc top) 0 slots_per_level st) o
        (sweep_slots-Stays i e (suc top) 0 slots_per_level st (inl (omega arith)) h)

  process_passed-Stays :
      (i : ℕ) (e : TimerEntry) (ticks a b : ℕ) (st : Sweep S)
      → ¬ Passed ticks a b e.slot
      → Stays i e st
      → Stays i e (process_passed ticks a b st)
  unfolding process_passed process_slots_at_level_0
  process_passed-Stays i e ticks a b st o h = elim (Bool-cases (leb slots_per_level ticks)) [
    | inl t ↦ absurd (o (inl (ground arith)))
    | inr t ↦ rw t (elim (Bool-cases (leb a b)) [
      | inl f ↦ rw f (
          sweep_slots-Stays i e 0 a (b + 1 - a) st
            (elim (dec_lt e.slot a) [
              | yes low ↦ inr (inl low)
              | no high ↦ elim (dec_le e.slot b) [
                | yes in_range ↦ absurd (o (inr (inl (ground arith, omega arith, omega arith))))
                | no above ↦ inr (inr (ground arith))
              ]
            ])
            h)
      | inr f ↦ rw f (
          sweep_slots-Stays i e 0 0 (b + 1) (sweep_slots 0 a (slots_per_level - a) st)
            (elim (dec_le e.slot b) [
              | yes low ↦ absurd (o (inr (inr (ground arith, inr low))))
              | no high ↦ inr (inr (omega arith))
            ])
            (sweep_slots-Stays i e 0 a (slots_per_level - a) st
              (elim (dec_lt e.slot a) [
                | yes low ↦ inr (inl low)
                | no high ↦ absurd (o (inr (inr (ground arith, inl (omega arith)))))
              ])
              h))
    ])
  ]

  pub sweep-stays :
      (w : TimingWheel S) (ticks i : ℕ) (e : TimerEntry)
      → IsPlaced w
      → slab.get w.entries i ≡ some e
      → e.level ≡ 0
      → ¬ Passed ticks (cursor w) (u64_add w.current_tick ticks % slots_per_level) e.slot
      → slab.get (sweep w ticks).0.entries i ≡ some e
  unfolding sweep cascade_all_levels
  sweep-stays w ticks i e p h low missed =
      (process_passed-Stays i e ticks (cursor w) (u64_add w.current_tick ticks % slots_per_level) _
        missed
        (cascade_down-Stays i e 6 (record w { current_tick = u64_add w.current_tick ticks }, []) low
          (record { placed = p.placed; bounded = p.bounded }, h))).1
