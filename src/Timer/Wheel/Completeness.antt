-- ===== src/Timer/Wheel/Completeness.antt =====
-- Which due timers `advance` reaches: all in the upper levels, and at level 0 those in a slot that
-- the cursor passes.
use zincio.Prelude.{
  ℕ, zero, suc, ◌+◌, ◌-◌, ◌%◌, ◌≤◌, ◌<◌, ◌≡◌, inl, inr, ◌⊎◌, List, [], ◌∷◌, some, arith, leb,
  u64_add, Bool-cases, count, dec_lt, dec_le,
}
use zincio.Timer.Levels.{num_levels, slots_per_level, calculate_level_and_slot}
use zincio.Timer.Slab.{Slab, TimerEntry}
use zincio.Timer.Wheel.{TimingWheel, set_slot}
use zincio.Timer.Wheel.Advance.{
  Sweep, move_entry, expire_or_move, sweep_timers, sweep_slot, sweep_slots, cascade_level,
  cascade_down, cascade_all_levels, process_slots_at_level_0, process_passed, sweep,
}
use zincio.Timer.Wheel.Sweeps.{
  expire_or_move_cases, sweep_slot_keep, sweep_slots_keep, cascade_down_keep, process_passed_keep,
}
use zincio.Timer.Wheel.Placement.{IsPlaced, sweep_slot-IsPlaced}

-- The slots of level 0 from the old cursor `a` to the new one `b`.
abbrev pub Passed : ℕ → ℕ → ℕ → ℕ → Type 0
Passed ticks a b s =
    (slots_per_level ≤ ticks) ⊎ ((a ≤ b) × (a ≤ s) × (s ≤ b)) ⊎ ((b < a) × ((a ≤ s) ⊎ (s ≤ b)))

module _ {S : Type 0} ⦃slab : Slab S⦄ where
  -- No timer of the slot is due.
  abbrev pub IsClear : ℕ → ℕ → TimingWheel S → Type 0
  IsClear l s w =
      (i : ℕ) (e : TimerEntry)
      → slab.get w.entries i ≡ some e
      → e.level ≡ l
      → e.slot ≡ s
      → w.current_tick < e.expiration_tick

  expire_or_move-IsClear :
      (l s index : ℕ) (st : Sweep S) → IsClear l s st.0 → IsClear l s (expire_or_move st index).0
  unfolding move_entry
  expire_or_move-IsClear l s index st c =
      expire_or_move_cases (λ v. IsClear l s v.0) st index (λ _. c)
        (λ e found due i f h a b. ground (arith, slab.get-remove st.0.entries index i, c i f))
        (λ e found later i f h a b.
          let (l', s') = calculate_level_and_slot (e.expiration_tick - st.0.current_tick) in
          ground (
            arith,
            slab.get-store st.0.entries index (record e { level = l'; slot = s' }) i (λ n. cc),
            c i f,
          ))

  sweep_slot-keeps-IsClear :
      (l s l' s' : ℕ) (st : Sweep S) → IsClear l s st.0 → IsClear l s (sweep_slot l' s' st).0
  sweep_slot-keeps-IsClear l s =
      sweep_slot_keep (λ v. IsClear l s v.0) (λ l' s' w ex c. c) (expire_or_move-IsClear l s)

  -- Every due timer of the slot still waits for its turn.
  abbrev Pending : ℕ → ℕ → List ℕ → TimingWheel S → Type 0
  Pending l s todo w =
      (i : ℕ) (e : TimerEntry)
      → slab.get w.entries i ≡ some e
      → e.level ≡ l
      → e.slot ≡ s
      → (w.current_tick < e.expiration_tick) ⊎ (1 ≤ count i todo)

  expire_or_move-Pending :
      (l s index : ℕ) (rest : List ℕ) (st : Sweep S)
      → Pending l s (index ∷ rest) st.0
      → Pending l s rest (expire_or_move st index).0
  unfolding move_entry
  expire_or_move-Pending l s index rest st c =
      expire_or_move_cases (λ v. Pending l s rest v.0) st index
        (λ gone i f h a b. ground (arith, c i f h a b))
        (λ e found due i f h a b. ground (arith, slab.get-remove st.0.entries index i, c i f))
        (λ e found later i f h a b.
          let (l', s') = calculate_level_and_slot (e.expiration_tick - st.0.current_tick) in
          ground (
            arith,
            slab.get-store st.0.entries index (record e { level = l'; slot = s' }) i (λ n. cc),
            c i f,
          ))

  sweep_timers-clears :
      (l s : ℕ) (st : Sweep S) (todo : List ℕ)
      → Pending l s todo st.0
      → IsClear l s (sweep_timers st todo).0
  unfolding sweep_timers
  sweep_timers-clears l s st [] c = λ i e h a b. ground (arith, c i e h a b)
  sweep_timers-clears l s st (i ∷ rest) c =
      sweep_timers-clears l s (expire_or_move st i) rest (expire_or_move-Pending l s i rest st c)

  sweep_slot-clears : (l s : ℕ) (st : Sweep S) → IsPlaced st.0 → IsClear l s (sweep_slot l s st).0
  unfolding sweep_slot
  sweep_slot-clears l s (w, ex) p =
      sweep_timers-clears l s (record w { wheels = set_slot w.wheels l s [] }, ex) (w.wheels l s)
        (λ i e h a b. ground (arith, p.placed i l s))

  sweep_slots-IsPlaced :
      (l from rounds : ℕ) (st : Sweep S) → IsPlaced st.0 → IsPlaced (sweep_slots l from rounds st).0
  sweep_slots-IsPlaced = sweep_slots_keep (λ v. IsPlaced v.0) sweep_slot-IsPlaced

  sweep_slots-clears :
      (l from rounds : ℕ) (st : Sweep S)
      → IsPlaced st.0
      → (s : ℕ) → from ≤ s
      → s < from + rounds
      → IsClear l s (sweep_slots l from rounds st).0
  unfolding sweep_slots
  sweep_slots-clears l from zero st p s lo hi = absurd (omega arith)
  sweep_slots-clears l from (suc rounds) st p s lo hi = elim (dec_lt from s) [
    | yes past ↦
        sweep_slots-clears l (from + 1) rounds (sweep_slot l from st)
          (sweep_slot-IsPlaced l from st p) s (omega arith) (omega arith)
    | no now ↦
        let same : s ≡ from = omega arith in
        rw same (
          sweep_slots_keep (λ v. IsClear l from v.0) (sweep_slot-keeps-IsClear l from) l (from + 1)
            rounds (sweep_slot l from st) (sweep_slot-clears l from st p))
  ]

  cascade_down-IsPlaced :
      (top : ℕ) (st : Sweep S) → IsPlaced st.0 → IsPlaced (cascade_down top st).0
  cascade_down-IsPlaced = cascade_down_keep (λ v. IsPlaced v.0) sweep_slot-IsPlaced

  cascade_down-clears :
      (top : ℕ) (st : Sweep S)
      → IsPlaced st.0
      → (l s : ℕ) → 1 ≤ l
      → l ≤ top
      → s < slots_per_level
      → IsClear l s (cascade_down top st).0
  unfolding cascade_down cascade_level
  cascade_down-clears zero st p l s lo hi b = absurd (omega arith)
  cascade_down-clears (suc top) st p l s lo hi b = elim (dec_le l top) [
    | yes below ↦
        cascade_down-clears top (sweep_slots (suc top) 0 slots_per_level st)
          (sweep_slots-IsPlaced (suc top) 0 slots_per_level st p) l s lo below b
    | no top_one ↦
        let same : l ≡ suc top = omega arith in
        rw same (
          cascade_down_keep (λ v. IsClear (suc top) s v.0) (sweep_slot-keeps-IsClear (suc top) s)
            top (sweep_slots (suc top) 0 slots_per_level st)
            (sweep_slots-clears (suc top) 0 slots_per_level st p s (omega arith) (omega arith)))
  ]

  process_passed-clears :
      (ticks a b : ℕ) (st : Sweep S)
      → IsPlaced st.0
      → (s : ℕ) → s < slots_per_level
      → Passed ticks a b s
      → IsClear 0 s (process_passed ticks a b st).0
  unfolding process_passed process_slots_at_level_0
  process_passed-clears ticks a b st p s small passed =
      elim (Bool-cases (leb slots_per_level ticks)) [
        | inl e ↦ rw e (sweep_slots-clears 0 0 slots_per_level st p s (omega arith) (omega arith))
        | inr e ↦ rw e (elim (Bool-cases (leb a b)) [
          | inl f ↦ rw f (sweep_slots-clears 0 a (b + 1 - a) st p s (ground arith) (ground arith))
          | inr f ↦ rw f (elim (dec_le s b) [
            | yes low ↦
                sweep_slots-clears 0 0 (b + 1) (sweep_slots 0 a (slots_per_level - a) st)
                  (sweep_slots-IsPlaced 0 a (slots_per_level - a) st p) s (omega arith)
                  (omega arith)
            | no high ↦
                sweep_slots_keep (λ v. IsClear 0 s v.0) (sweep_slot-keeps-IsClear 0 s) 0 0 (b + 1)
                  (sweep_slots 0 a (slots_per_level - a) st)
                  (sweep_slots-clears 0 a (slots_per_level - a) st p s (ground arith)
                    (ground arith))
          ])
        ])
      ]

  abbrev pub cursor : TimingWheel S → ℕ
  cursor w = w.current_tick % slots_per_level

  -- After the sweep no due timer is left in an upper level, nor in a slot that the cursor passed.
  pub sweep-clears :
      (w : TimingWheel S) (ticks : ℕ)
      → IsPlaced w
      → (l s : ℕ) → s < slots_per_level
      → ((1 ≤ l) × (l < num_levels))
        ⊎ ((l ≡ 0) × Passed ticks (cursor w) (u64_add w.current_tick ticks % slots_per_level) s)
      → IsClear l s (sweep w ticks).0
  unfolding sweep cascade_all_levels
  sweep-clears w ticks p l s small (inl (lo, hi)) =
      process_passed_keep (λ v. IsClear l s v.0) (sweep_slot-keeps-IsClear l s) ticks (cursor w)
        (u64_add w.current_tick ticks % slots_per_level)
        (cascade_down 6 (record w { current_tick = u64_add w.current_tick ticks }, []))
        (cascade_down-clears 6 (record w { current_tick = u64_add w.current_tick ticks }, [])
          (record { placed = p.placed; bounded = p.bounded }) l s lo (omega arith) small)
  sweep-clears w ticks p l s small (inr (e, passed)) = rw e (
      process_passed-clears ticks (cursor w) (u64_add w.current_tick ticks % slots_per_level)
        (cascade_down 6 (record w { current_tick = u64_add w.current_tick ticks }, []))
        (cascade_down-IsPlaced 6 (record w { current_tick = u64_add w.current_tick ticks }, [])
          (record { placed = p.placed; bounded = p.bounded }))
        s small passed)
