-- ===== src/Timer/Wheel/Insertion.antt =====
-- What `insert` adds: one timer, at a key that was vacant, with a generation of its own.
use zincio.Prelude.{ℕ, ◌+◌, ◌-◌, ◌<◌, ◌≡◌, refl, some, arith, ◌==◌, if◌then◌else◌, u64_add, ==_refl}
use zincio.Timer.Levels.{slots_per_level, calculate_level_and_slot, calculate_low}
use zincio.Timer.Slab.{Slab, TimerEntry}
use zincio.Timer.Wheel.{TimingWheel, insert}

module _ {S : Type 0} ⦃slab : Slab S⦄ where
  abbrev pub entry_for : TimingWheel S → ℕ → ℕ → TimerEntry
  entry_for w waker tick = record {
    waker = waker;
    expiration_tick = tick;
    generation = u64_add w.generation_counter 1;
    level = (calculate_level_and_slot (tick - w.current_tick)).0;
    slot = (calculate_level_and_slot (tick - w.current_tick)).1;
  }

  pub get-inserted :
      (w : TimingWheel S) (waker tick i : ℕ)
      → slab.get (insert w waker tick).0.entries i ≡ (
          if slab.next_key w.entries == i
          then some (entry_for w waker tick)
          else slab.get w.entries i)
  unfolding insert
  get-inserted w waker tick i = slab.get-insert w.entries (entry_for w waker tick) i

  pub insert_handle :
      (w : TimingWheel S) (waker tick : ℕ)
      → ((insert w waker tick).1.slab_index ≡ slab.next_key w.entries)
        × ((insert w waker tick).1.generation ≡ u64_add w.generation_counter 1)
        × ((insert w waker tick).0.current_tick ≡ w.current_tick)
        × ((insert w waker tick).0.generation_counter ≡ u64_add w.generation_counter 1)
  unfolding insert
  insert_handle w waker tick = (refl, refl, refl, refl)

  pub get-inserted_self :
      (w : TimingWheel S) (waker tick : ℕ)
      → slab.get (insert w waker tick).0.entries (insert w waker tick).1.slab_index
        ≡ some (entry_for w waker tick)
  get-inserted_self w waker tick =
      rw (insert_handle w waker tick).0 (
        rw (get-inserted w waker tick (slab.next_key w.entries), ==_refl (slab.next_key w.entries)))

  pub entry_low :
      (w : TimingWheel S) (waker delay : ℕ)
      → delay < slots_per_level
      → ((entry_for w waker (w.current_tick + delay)).level ≡ 0)
        × ((entry_for w waker (w.current_tick + delay)).slot ≡ delay)
  entry_low w waker delay h =
      let d : w.current_tick + delay - w.current_tick ≡ delay = omega arith in
      rw d (rw (calculate_low delay h) (refl, refl))
