-- ===== src/Timer/Wheel/Advance.antt =====
-- `TimingWheel::advance`: the cascade over the upper levels, then the slots of level 0 that the
-- cursor passes. The two inner loops of the source have one body, `expire_or_move`.
use zincio.Prelude.{
  ℕ, zero, suc, ◌+◌, ◌-◌, ◌%◌, List, [], ◌∷◌, ◌++◌, none, some, leb, ◌==◌, if◌then◌else◌, u64_add,
}
use zincio.Timer.Levels.{num_levels, slots_per_level, calculate_level_and_slot}
use zincio.Timer.Slab.{Slab, TimerEntry, Waker}
use zincio.Timer.Wheel.{TimingWheel, set_slot, refresh_min_expiration}

-- The wheel, and the wakers that have expired so far.
abbrev pub Sweep : Type 0 → Type 0
Sweep S = TimingWheel S × List Waker

module _ {S : Type 0} ⦃slab : Slab S⦄ where
  -- A timer that is not yet due goes to the slot for what is left of its delay.
  unfoldable pub move_entry : TimingWheel S → ℕ → TimerEntry → TimingWheel S
  move_entry w index entry =
      let (level, slot) = calculate_level_and_slot (entry.expiration_tick - w.current_tick) in
      record w {
        entries = slab.store w.entries index (record entry { level = level; slot = slot });
        wheels = set_slot w.wheels level slot (w.wheels level slot ++ index ∷ []);
      }

  unfoldable pub expire_or_move : Sweep S → ℕ → Sweep S
  expire_or_move (w, expired) index = elim (slab.get w.entries index) [
    | some entry ↦
        if leb entry.expiration_tick w.current_tick
        then (record w { entries = slab.remove w.entries index }, expired ++ entry.waker ∷ [])
        else (move_entry w index entry, expired)
    | none ↦ (w, expired)
  ]

  unfoldable pub sweep_timers : Sweep S → List ℕ → Sweep S
  sweep_timers st [] = st
  sweep_timers st (index ∷ rest) = sweep_timers (expire_or_move st index) rest

  -- `mem::take` of the slot, and the loop over what it held.
  unfoldable pub sweep_slot : ℕ → ℕ → Sweep S → Sweep S
  sweep_slot level slot (w, expired) =
      sweep_timers (record w { wheels = set_slot w.wheels level slot [] }, expired)
        (w.wheels level slot)

  -- `for slot in from..from + rounds`.
  unfoldable pub sweep_slots : ℕ → ℕ → ℕ → Sweep S → Sweep S
  sweep_slots level from zero st = st
  sweep_slots level from (suc rounds) st =
      sweep_slots level (from + 1) rounds (sweep_slot level from st)

  unfoldable pub process_slots_at_level_0 : ℕ → ℕ → Sweep S → Sweep S
  process_slots_at_level_0 from rounds st = sweep_slots 0 from rounds st

  unfoldable pub cascade_level : ℕ → Sweep S → Sweep S
  cascade_level level st = sweep_slots level 0 slots_per_level st

  -- `for level in (1..=top).rev()`.
  unfoldable pub cascade_down : ℕ → Sweep S → Sweep S
  cascade_down zero st = st
  cascade_down (suc level) st = cascade_down level (cascade_level (suc level) st)

  unfoldable pub cascade_all_levels : Sweep S → Sweep S
  cascade_all_levels st = cascade_down (num_levels - 1) st

  -- The slots of level 0 from the old cursor to the new one, once around at most.
  unfoldable pub process_passed : ℕ → ℕ → ℕ → Sweep S → Sweep S
  process_passed ticks start_slot end_slot st =
      if leb slots_per_level ticks
      then process_slots_at_level_0 0 slots_per_level st
      else if leb start_slot end_slot
      then process_slots_at_level_0 start_slot (end_slot + 1 - start_slot) st
      else process_slots_at_level_0 0 (end_slot + 1)
          (process_slots_at_level_0 start_slot (slots_per_level - start_slot) st)

  -- Everything between the move of the cursor and the refresh of the minimum.
  unfoldable pub sweep : TimingWheel S → ℕ → Sweep S
  sweep w ticks =
      let now = u64_add w.current_tick ticks in
      process_passed ticks (w.current_tick % slots_per_level) (now % slots_per_level)
        (cascade_all_levels (record w { current_tick = now }, []))

  unfoldable pub advance : TimingWheel S → ℕ → TimingWheel S × List Waker
  advance w ticks =
      let (w', expired) = sweep w ticks in
      if ticks == 0 then (w, []) else (refresh_min_expiration w', expired)
