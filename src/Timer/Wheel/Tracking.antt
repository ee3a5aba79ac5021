-- ===== src/Timer/Wheel/Tracking.antt =====
-- Every operation of the wheel keeps the expiration heap in step with the timers.
use zincio.Prelude.{
  ℕ, ◌+◌, ◌-◌, ◌<◌, ◌≡◌, refl, subst, inl, inr, List, some, arith, ◌==◌, u64_add, u64_add_lem,
  u64_mod, Bool-cases, In,
}
use zincio.Timer.Levels.{calculate_level_and_slot}
use zincio.Timer.Slab.{Slab, TimerEntry}
use zincio.Timer.Heap.{HeapItem, push, push-IsSorted, In-push, push-In, push-In_self}
use zincio.Timer.Wheel.{
  TimingWheel, TimerHandle, set_slot, insert, remove_entry, remove, remove_first,
}
use zincio.Timer.Wheel.Advance.{Sweep, sweep, advance}
use zincio.Timer.Wheel.Removal.{remove_cases}
use zincio.Timer.Wheel.Outcome.{Fate-origin, SameTimer, Outcome, sweep-Outcome}
use zincio.Timer.Wheel.Nearest.{item_of, Tracks, IsTracked, refresh-IsTracked}

module _ {S : Type 0} ⦃slab : Slab S⦄ where
  -- Fewer timers need no more items.
  Tracks-shrink :
      (es fs : S) (heap : List HeapItem) (c : ℕ)
      → ((i : ℕ) (f : TimerEntry)
          → slab.get fs i ≡ some f
          → (e : TimerEntry) × (slab.get es i ≡ some e) × SameTimer e f)
      → Tracks es heap c
      → Tracks fs heap c
  Tracks-shrink es fs heap c origin t = record {
    sorted = t.sorted;
    covers = λ i f h.
        let (e, at_start, same) = origin i f h in
        subst (λ x. In x heap) (ground arith) (t.covers i e at_start);
    old = t.old;
    accurate = λ x m f h live.
        let (e, at_start, same) = origin x.index f h in
        omega (arith, t.accurate x m e at_start (ground arith));
  }

  remove_entry-IsTracked :
      (w : TimingWheel S) (index : ℕ) (entry : TimerEntry)
      → IsTracked w
      → IsTracked (remove_entry w index entry)
  unfolding remove_entry
  remove_entry-IsTracked w index entry t =
      refresh-IsTracked
        (record w {
          wheels =
              set_slot w.wheels entry.level entry.slot
                (remove_first index (w.wheels entry.level entry.slot));
          entries = slab.remove w.entries index;
        })
        (Tracks-shrink w.entries (slab.remove w.entries index) w.expiration_heap
          w.generation_counter
          (λ i f h. (f, ground (arith, slab.get-remove w.entries index i), (refl, refl, refl))) t)

  pub remove-IsTracked :
      (w : TimingWheel S) (handle : TimerHandle) → IsTracked w → IsTracked (remove w handle)
  remove-IsTracked w handle t =
      remove_cases IsTracked w handle t (λ e _. remove_entry-IsTracked w handle.slab_index e t)

  Outcome-IsTracked :
      {w : TimingWheel S} {now : ℕ} {st : Sweep S} → Outcome w now st → IsTracked w → IsTracked st.0
  Outcome-IsTracked {w} {now} {st} o t =
      rw (o.heap, o.counter)
        (Tracks-shrink w.entries st.0.entries w.expiration_heap w.generation_counter
          (λ i f h. Fate-origin now st.1 (slab.get w.entries i) f (rw h at (o.fate i))) t)

  pub advance-IsTracked :
      (w : TimingWheel S) (ticks : ℕ) → IsTracked w → IsTracked (advance w ticks).0
  unfolding advance
  advance-IsTracked w ticks t = elim (Bool-cases (ticks == 0)) [
    | inl e ↦ rw e t
    | inr e ↦
        rw e (refresh-IsTracked (sweep w ticks).0 (Outcome-IsTracked (sweep-Outcome w ticks) t))
  ]

  module _ (w : TimingWheel S) (waker tick : ℕ) (t : IsTracked w)
      (room : w.generation_counter + 1 < u64_mod) where
    fresh : u64_add w.generation_counter 1 ≡ w.generation_counter + 1
    fresh = u64_add_lem w.generation_counter 1 room

    abbrev entry : TimerEntry
    entry = record {
      waker = waker;
      expiration_tick = tick;
      generation = u64_add w.generation_counter 1;
      level = (calculate_level_and_slot (tick - w.current_tick)).0;
      slot = (calculate_level_and_slot (tick - w.current_tick)).1;
    }

    abbrev key : ℕ
    key = slab.next_key w.entries

    insert-covers :
        (i : ℕ) (e : TimerEntry)
        → slab.get (slab.insert w.entries entry) i ≡ some e
        → In (item_of i e) (push (item_of key entry) w.expiration_heap)
    insert-covers i e h = elim (Bool-cases (key == i)) [
      | inl same ↦
          subst (λ x. In x (push (item_of key entry) w.expiration_heap))
            (ground (arith, slab.get-insert w.entries entry i))
            (push-In_self (item_of key entry) w.expiration_heap)
      | inr other ↦
          push-In (item_of i e) (item_of key entry) w.expiration_heap
            (t.covers i e (ground (arith, slab.get-insert w.entries entry i)))
    ]

    insert-accurate :
        (x : HeapItem)
        → In x (push (item_of key entry) w.expiration_heap)
        → (e : TimerEntry) → slab.get (slab.insert w.entries entry) x.index ≡ some e
        → e.generation ≡ x.gen
        → e.expiration_tick ≡ x.tick
    insert-accurate x m e h live = elim (In-push x (item_of key entry) w.expiration_heap m) [
      | inl same ↦ ground (arith, slab.get-insert w.entries entry x.index)
      | inr before ↦ ground (
        arith,
        slab.get-insert w.entries entry x.index,
        t.accurate x before e,
        t.old x before,
        fresh,
      )
    ]

    pub insert-IsTracked : IsTracked (insert w waker tick).0
    unfolding insert
    insert-IsTracked = record {
      sorted = push-IsSorted (item_of key entry) w.expiration_heap t.sorted;
      covers = insert-covers;
      old = λ x m. elim (In-push x (item_of key entry) w.expiration_heap m) [
        | inl same ↦ ground arith
        | inr before ↦ omega (arith, t.old x before, fresh)
      ];
      accurate = insert-accurate;
    }
