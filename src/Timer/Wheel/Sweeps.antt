-- ===== src/Timer/Wheel/Sweeps.antt =====
-- How a property of the sweep's state is carried through the loops of `advance`.
use zincio.Prelude.{
  ℕ, zero, suc, ◌+◌, ◌-◌, ◌%◌, ◌≤◌, ◌<◌, ◌≡◌, inl, inr, List, [], ◌∷◌, ◌++◌, none, some, leb, arith,
  u64_add, Option-cases, Bool-cases, leb→le,
}
use zincio.Timer.Levels.{num_levels, slots_per_level}
use zincio.Timer.Slab.{Slab, TimerEntry, Waker}
use zincio.Timer.Wheel.{TimingWheel, set_slot}
use zincio.Timer.Wheel.Advance.{
  Sweep, move_entry, expire_or_move, sweep_timers, sweep_slot, sweep_slots, cascade_down,
  cascade_level, process_slots_at_level_0, cascade_all_levels, process_passed, sweep,
}

module _ {S : Type 0} ⦃slab : Slab S⦄ where
  -- One timer: a stale index is skipped, a due timer leaves, any other moves.
  pub expire_or_move_cases :
      (P : Sweep S → Type 0) (st : Sweep S) (index : ℕ)
      → (slab.get st.0.entries index ≡ none → P st)
      → ((e : TimerEntry)
          → slab.get st.0.entries index ≡ some e
          → e.expiration_tick ≤ st.0.current_tick
          → P (record st.0 { entries = slab.remove st.0.entries index }, st.1 ++ e.waker ∷ []))
      → ((e : TimerEntry)
          → slab.get st.0.entries index ≡ some e
          → st.0.current_tick < e.expiration_tick
          → P (move_entry st.0 index e, st.1))
      → P (expire_or_move st index)
  unfolding expire_or_move
  expire_or_move_cases P (w, ex) index stale due later =
      elim (Option-cases (slab.get w.entries index)) [
        | inl e ↦ rw (e, expire_or_move) (stale e)
        | inr (t, e) ↦ elim (Bool-cases (leb t.expiration_tick w.current_tick)) [
          | inl h ↦ rw (e, expire_or_move) (rw h (due t e (leb→le _ _ h)))
          | inr h ↦ rw (e, expire_or_move) (rw h (later t e (ground arith)))
        ]
      ]

  -- A property that every slot keeps is kept by the whole sweep.
  module _ (P : Sweep S → Type 0)
      (keep : (level slot : ℕ) (st : Sweep S) → P st → P (sweep_slot level slot st)) where
    pub sweep_slots_keep :
        (level from rounds : ℕ) (st : Sweep S) → P st → P (sweep_slots level from rounds st)
    unfolding sweep_slots
    sweep_slots_keep level from zero st h = h
    sweep_slots_keep level from (suc rounds) st h =
        sweep_slots_keep level (from + 1) rounds (sweep_slot level from st) (keep level from st h)

    pub cascade_down_keep : (top : ℕ) (st : Sweep S) → P st → P (cascade_down top st)
    unfolding cascade_down cascade_level
    cascade_down_keep zero st h = h
    cascade_down_keep (suc level) st h =
        cascade_down_keep level (sweep_slots (suc level) 0 slots_per_level st)
          (sweep_slots_keep (suc level) 0 slots_per_level st h)

    pub process_passed_keep :
        (ticks a b : ℕ) (st : Sweep S) → P st → P (process_passed ticks a b st)
    unfolding process_passed process_slots_at_level_0
    process_passed_keep ticks a b st h = elim (Bool-cases (leb slots_per_level ticks)) [
      | inl e ↦ rw e (sweep_slots_keep 0 0 slots_per_level st h)
      | inr e ↦ rw e (elim (Bool-cases (leb a b)) [
        | inl f ↦ rw f (sweep_slots_keep 0 a (b + 1 - a) st h)
        | inr f ↦
            rw f (sweep_slots_keep 0 0 (b + 1) _ (sweep_slots_keep 0 a (slots_per_level - a) st h))
      ])
    ]

    pub sweep_keep :
        (w : TimingWheel S) (ticks : ℕ)
        → P (record w { current_tick = u64_add w.current_tick ticks }, [])
        → P (sweep w ticks)
    unfolding sweep cascade_all_levels
    sweep_keep w ticks h =
        process_passed_keep ticks (w.current_tick % slots_per_level)
          (u64_add w.current_tick ticks % slots_per_level) _
          (cascade_down_keep (num_levels - 1) _ h)

  -- A property that does not speak of the wheels and that every timer keeps is kept by a slot.
  module _ (P : Sweep S → Type 0)
      (clear : (level slot : ℕ) (w : TimingWheel S) (ex : List Waker)
        → P (w, ex)
        → P (record w { wheels = set_slot w.wheels level slot [] }, ex))
      (keep : (index : ℕ) (st : Sweep S) → P st → P (expire_or_move st index)) where
    sweep_timers_keep : (st : Sweep S) (xs : List ℕ) → P st → P (sweep_timers st xs)
    unfolding sweep_timers
    sweep_timers_keep st [] h = h
    sweep_timers_keep st (i ∷ xs) h = sweep_timers_keep (expire_or_move st i) xs (keep i st h)

    pub sweep_slot_keep : (level slot : ℕ) (st : Sweep S) → P st → P (sweep_slot level slot st)
    unfolding sweep_slot
    sweep_slot_keep level slot (w, ex) h =
        sweep_timers_keep _ (w.wheels level slot) (clear level slot w ex h)
