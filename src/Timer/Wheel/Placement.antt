-- ===== src/Timer/Wheel/Placement.antt =====
-- Where the timers are: each stands once, in the slot that its entry names, and nowhere else.
use zincio.Prelude.{
  ℕ, ◌+◌, ◌-◌, ◌<◌, ◌≡◌, ◌≢◌, inl, inr, List, [], ◌∷◌, Option, none, some, arith, ◌==◌, ◌&&◌,
  if◌then◌else◌, u64_add, Bool-cases, ==_refl, count, count-append,
}
use zincio.Timer.Levels.{num_levels, slots_per_level, calculate_level_and_slot, calculate_bounds}
use zincio.Timer.Slab.{Slab, TimerEntry}
use zincio.Timer.Wheel.{
  TimingWheel, TimerHandle, set_slot, new, refresh_min_expiration, insert, remove_entry,
  remove_first, remove,
}
use zincio.Timer.Wheel.Advance.{
  Sweep, move_entry, expire_or_move, sweep_timers, sweep_slot, sweep, advance,
}
use zincio.Timer.Wheel.Sweeps.{expire_or_move_cases, sweep_keep}
use zincio.Timer.Wheel.Removal.{remove_cases}

-- How often the key of a timer stands in a slot.
abbrev pub expected : Option TimerEntry → ℕ → ℕ → ℕ
expected none l s = 0
expected (some e) l s = if l == e.level && s == e.slot then 1 else 0

count-remove_first :
    (i a : ℕ) (xs : List ℕ)
    → count i (remove_first a xs) ≡ (if a == i then count i xs - 1 else count i xs)
unfolding remove_first
count-remove_first i a [] = ground arith
count-remove_first i a (x ∷ xs) = ground (arith, count-remove_first i a xs)

module _ {S : Type 0} ⦃slab : Slab S⦄ where
  pub record IsPlaced (w : TimingWheel S) : Type 0 where
    pub placed : (i l s : ℕ) → count i (w.wheels l s) ≡ expected (slab.get w.entries i) l s
    pub bounded :
        (i : ℕ) (e : TimerEntry)
        → slab.get w.entries i ≡ some e
        → (e.level < num_levels) × (e.slot < slots_per_level)

  -- The same while the keys `todo`, taken from one slot, still wait for their turn.
  pub record IsPlacedBut (l0 s0 : ℕ) (todo : List ℕ) (w : TimingWheel S) : Type 0 where
    pub placed :
        (i l s : ℕ)
        → count i (w.wheels l s) + (if l == l0 && s == s0 then count i todo else 0)
          ≡ expected (slab.get w.entries i) l s
    pub bounded :
        (i : ℕ) (e : TimerEntry)
        → slab.get w.entries i ≡ some e
        → (e.level < num_levels) × (e.slot < slots_per_level)

  module _ {l0 s0 index : ℕ} {rest : List ℕ} {w : TimingWheel S}
      (p : IsPlacedBut l0 s0 (index ∷ rest) w) where
    not-stale : slab.get w.entries index ≢ none
    not-stale e = ground (arith, p.placed index l0 s0, ==_refl l0, ==_refl s0)

    module _ {e : TimerEntry} (found : slab.get w.entries index ≡ some e) where
      here :
          (l0 ≡ e.level)
          × (s0 ≡ e.slot)
          × (count index rest ≡ 0)
          × (count index (w.wheels l0 s0) ≡ 0)
      here = ground (arith, p.placed index l0 s0)

      absent : (l s : ℕ) → count index (w.wheels l s) ≡ 0
      absent l s = ground (arith, p.placed index l s, here)

      due-IsPlacedBut : IsPlacedBut l0 s0 rest (record w { entries = slab.remove w.entries index })
      due-IsPlacedBut = record {
        placed = λ i l s.
            ground (arith, slab.get-remove w.entries index i, p.placed i l s, absent l s, here);
        bounded = λ i f h. ground (arith, slab.get-remove w.entries index i, p.bounded i f);
      }

      later-IsPlacedBut : IsPlacedBut l0 s0 rest (move_entry w index e)
      unfolding move_entry
      later-IsPlacedBut = record {
        placed = λ i l s. ground (
          arith,
          p.placed i l s,
          absent l s,
          here,
          slab.get-store w.entries index
              (record e {
                level = (calculate_level_and_slot (e.expiration_tick - w.current_tick)).0;
                slot = (calculate_level_and_slot (e.expiration_tick - w.current_tick)).1;
              })
              i not-stale,
          count-append i (w.wheels l s) (index ∷ []),
        );
        bounded = λ i f h. ground (
          arith,
          p.bounded i f,
          calculate_bounds (e.expiration_tick - w.current_tick),
          slab.get-store w.entries index
              (record e {
                level = (calculate_level_and_slot (e.expiration_tick - w.current_tick)).0;
                slot = (calculate_level_and_slot (e.expiration_tick - w.current_tick)).1;
              })
              i not-stale,
        );
      }

  expire_or_move-IsPlacedBut :
      (l0 s0 index : ℕ) (rest : List ℕ) (st : Sweep S)
      → IsPlacedBut l0 s0 (index ∷ rest) st.0
      → IsPlacedBut l0 s0 rest (expire_or_move st index).0
  expire_or_move-IsPlacedBut l0 s0 index rest st p =
      expire_or_move_cases (λ v. IsPlacedBut l0 s0 rest v.0) st index (λ e. absurd (not-stale p e))
        (λ e found _. due-IsPlacedBut p found) (λ e found _. later-IsPlacedBut p found)

  sweep_timers-IsPlacedBut :
      (l0 s0 : ℕ) (st : Sweep S) (todo : List ℕ)
      → IsPlacedBut l0 s0 todo st.0
      → IsPlacedBut l0 s0 [] (sweep_timers st todo).0
  unfolding sweep_timers
  sweep_timers-IsPlacedBut l0 s0 st [] p = p
  sweep_timers-IsPlacedBut l0 s0 st (i ∷ rest) p =
      sweep_timers-IsPlacedBut l0 s0 (expire_or_move st i) rest
        (expire_or_move-IsPlacedBut l0 s0 i rest st p)

  pub taken-IsPlacedBut :
      (l s : ℕ) (w : TimingWheel S)
      → IsPlaced w
      → IsPlacedBut l s (w.wheels l s) (record w { wheels = set_slot w.wheels l s [] })
  taken-IsPlacedBut l s w p = record {
    placed = λ i l' s'. ground (arith, p.placed i l' s');
    bounded = p.bounded;
  }

  IsPlacedBut-done : {l s : ℕ} {w : TimingWheel S} → IsPlacedBut l s [] w → IsPlaced w
  IsPlacedBut-done {l} {s} p = record {
    placed = λ i l' s'. ground (arith, p.placed i l' s');
    bounded = p.bounded;
  }

  pub sweep_slot-IsPlaced :
      (l s : ℕ) (st : Sweep S) → IsPlaced st.0 → IsPlaced (sweep_slot l s st).0
  unfolding sweep_slot
  sweep_slot-IsPlaced l s (w, ex) p = IsPlacedBut-done (
      sweep_timers-IsPlacedBut l s (record w { wheels = set_slot w.wheels l s [] }, ex)
        (w.wheels l s) (taken-IsPlacedBut l s w p))

  pub sweep-IsPlaced : (w : TimingWheel S) (ticks : ℕ) → IsPlaced w → IsPlaced (sweep w ticks).0
  sweep-IsPlaced w ticks p =
      sweep_keep (λ st. IsPlaced st.0) sweep_slot-IsPlaced w ticks
        (record { placed = p.placed; bounded = p.bounded })

  pub refresh-IsPlaced : (w : TimingWheel S) → IsPlaced w → IsPlaced (refresh_min_expiration w)
  unfolding refresh_min_expiration
  refresh-IsPlaced w p = record { placed = p.placed; bounded = p.bounded }

  pub new-IsPlaced : IsPlaced new
  unfolding new
  new-IsPlaced = record {
    placed = λ i l s. ground (arith, slab.get-new i);
    bounded = λ i e h. ground (arith, slab.get-new i);
  }

  pub advance-IsPlaced : (w : TimingWheel S) (ticks : ℕ) → IsPlaced w → IsPlaced (advance w ticks).0
  unfolding advance
  advance-IsPlaced w ticks p = elim (Bool-cases (ticks == 0)) [
    | inl e ↦ rw e p
    | inr e ↦ rw e (refresh-IsPlaced (sweep w ticks).0 (sweep-IsPlaced w ticks p))
  ]

  pub insert-IsPlaced :
      (w : TimingWheel S) (waker tick : ℕ) → IsPlaced w → IsPlaced (insert w waker tick).0
  unfolding insert
  insert-IsPlaced w waker tick p = record {
    placed = λ i l s. ground (
      arith,
      p.placed i l s,
      get-inserted i,
      slab.next_key_vacant w.entries,
      count-append i (w.wheels l s) (slab.next_key w.entries ∷ []),
    );
    bounded = λ i f h.
        ground (arith, get-inserted i, p.bounded i f, calculate_bounds (tick - w.current_tick));
  }
    where
      entry : TimerEntry
      entry = record {
        waker = waker;
        expiration_tick = tick;
        generation = u64_add w.generation_counter 1;
        level = (calculate_level_and_slot (tick - w.current_tick)).0;
        slot = (calculate_level_and_slot (tick - w.current_tick)).1;
      }

      get-inserted :
          (i : ℕ)
          → slab.get (slab.insert w.entries entry) i
            ≡ (if slab.next_key w.entries == i then some entry else slab.get w.entries i)
      get-inserted i = slab.get-insert w.entries entry i

  remove_entry-IsPlaced :
      (w : TimingWheel S) (index : ℕ) (e : TimerEntry)
      → slab.get w.entries index ≡ some e
      → IsPlaced w
      → IsPlaced (remove_entry w index e)
  unfolding remove_entry
  remove_entry-IsPlaced w index e found p =
      refresh-IsPlaced
        (record w {
          wheels = set_slot w.wheels e.level e.slot (remove_first index (w.wheels e.level e.slot));
          entries = slab.remove w.entries index;
        })
        (record {
          placed = λ i l s. ground (
            arith,
            p.placed i l s,
            slab.get-remove w.entries index i,
            count-remove_first i index (w.wheels e.level e.slot),
          );
          bounded = λ i f h. ground (arith, slab.get-remove w.entries index i, p.bounded i f);
        })

  pub remove-IsPlaced : (w : TimingWheel S) (h : TimerHandle) → IsPlaced w → IsPlaced (remove w h)
  remove-IsPlaced w h p =
      remove_cases IsPlaced w h p (λ e found. remove_entry-IsPlaced w h.slab_index e found p)
