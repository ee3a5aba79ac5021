-- ===== src/Timer/Tests/WheelWitnesses.antt =====
-- The theorems on the wheel, each at an input that meets its hypotheses.
use zincio.Prelude.{
  vec_get, ℕ, ◌+◌, ◌/◌, ◌^◌, u64_add, ◌%◌, ◌≤◌, ◌<◌, ◌≡◌, ◌⊎◌, refl, List, [], ◌∷◌, Option, none,
  some, arith, In,
}
use zincio.Timer.Levels.{calculate_level_and_slot, num_levels, slots_per_level}
use zincio.Timer.Levels
use zincio.Timer.Slab.{TimerEntry, Waker}
use zincio.Timer.Wheel.{TimingWheel, TimerHandle, new, insert, remove, nearest_wakeup, non_zero}
use zincio.Timer.Wheel.Advance.{advance}
use zincio.Timer.Wheel.Removal.{IsLive}
use zincio.Timer.Wheel.Insertion.{entry_for}
use zincio.Timer.Wheel.Outcome.{Fate, Woken}
use zincio.Timer.Wheel.Placement.{IsPlaced, insert-IsPlaced}
use zincio.Timer.Wheel.Completeness.{Passed, cursor}
use zincio.Timer.Wheel.Nearest.{IsLeast}
use zincio.Timer.Wheel.Firing
use zincio.Timer.Wheel.History
use zincio.Timer.Wheel.History.{Call, inserts, removes, advances, asks_nearest, run}
use zincio.Timer.Tests.Runs.{runs}
use zincio.Timer.Tests.VecSlab.{VecSlab, vec_slab}

calculate_digits_example :
    let l = (calculate_level_and_slot 5000).0 in
    (l < num_levels)
    × ((calculate_level_and_slot 5000).1 < slots_per_level)
    × ((l ≡ 0) ⊎ (64 ^ l ≤ 5000))
    × ((l ≡ 6) ⊎ (5000 < 64 ^ (l + 1)))
    × ((calculate_level_and_slot 5000).1 ≡ 5000 / 64 ^ l % 64)
calculate_digits_example = Levels.calculate_digits 5000

-- An empty wheel whose cursor stands at 50.
abbrev at_50 : TimingWheel VecSlab
at_50 = record {
  entries = [];
  wheels = λ l s. [];
  current_tick = 50;
  generation_counter = 0;
  min_expiration_tick = none;
  expiration_heap = [];
}

at_50-IsPlaced : IsPlaced at_50
at_50-IsPlaced = record { placed = λ i l s. refl; bounded = λ i e h. cc }

-- A timer for tick 60 in it, in slot 10 of level 0, and its handle.
abbrev set_60 : TimingWheel VecSlab
set_60 = (insert at_50 7 60).0

abbrev entry_60 : TimerEntry
entry_60 = entry_for at_50 7 60

abbrev handle_60 : TimerHandle
handle_60 = (insert at_50 7 60).1

set_60-IsPlaced : IsPlaced set_60
set_60-IsPlaced = insert-IsPlaced at_50 7 60 at_50-IsPlaced

abbrev busy_calls : List Call
busy_calls =
    inserts 1 10
    ∷ inserts 2 100
    ∷ advances 10
    ∷ removes (record { slab_index = 1; generation = 2 })
    ∷ asks_nearest
    ∷ inserts 3 5000
    ∷ []

run-new-IsPlaced_example : IsPlaced (run (new {S = VecSlab}) busy_calls)
run-new-IsPlaced_example = History.run-new-IsPlaced VecSlab busy_calls

nearest_wakeup-IsLeast_example :
    (least : Option ℕ) × IsLeast (run (new {S = VecSlab}) busy_calls).entries least
    × ((nearest_wakeup (run (new {S = VecSlab}) busy_calls)).1 ≡ non_zero least)
nearest_wakeup-IsLeast_example = History.nearest_wakeup-IsLeast VecSlab busy_calls (omega arith)

remove_is_final_example :
    (¬ IsLive (run (remove set_60 handle_60) busy_calls) handle_60)
    × (remove (run (remove set_60 handle_60) busy_calls) handle_60
        ≡ run (remove set_60 handle_60) busy_calls)
unfolding insert u64_add
remove_is_final_example =
    History.remove_is_final set_60 handle_60 busy_calls (omega arith) (omega arith)

advance_fates_example :
    ((advance set_60 14).0.current_tick ≡ Firing.later set_60 14)
    × ((i : ℕ)
        → Fate
            (Firing.later set_60 14)
            (advance set_60 14).1
            (vec_get set_60.entries i)
            (vec_get (advance set_60 14).0.entries i))
    × ((x : Waker)
        → In x (advance set_60 14).1
        → Woken set_60 (Firing.later set_60 14) (advance set_60 14).0.entries x)
advance_fates_example = Firing.advance_fates set_60 14 (λ z. cc)

insert_fires_late_example :
    (e : TimerEntry) × (vec_get (advance set_60 10).0.entries handle_60.slab_index ≡ some e)
    × (e.waker ≡ 7)
    × (e.expiration_tick ≤ (advance set_60 10).0.current_tick)
insert_fires_late_example =
    Firing.insert_fires_late at_50 7 10 10 at_50-IsPlaced (omega arith) (omega arith) (omega arith)
      (λ z. cc) (omega arith)

-- A timer for tick 5000, and its entry after 64 ticks.
abbrev set_5000 : TimingWheel VecSlab
set_5000 = (insert at_50 7 5000).0

abbrev entry_5000 : TimerEntry
entry_5000 = record { waker = 7; expiration_tick = 5000; generation = 1; level = 2; slot = 1 }

advance_complete_example : Firing.later set_5000 64 < 5000
unfolding runs
advance_complete_example =
    Firing.advance_complete set_5000 64 0 entry_5000 (insert-IsPlaced at_50 7 5000 at_50-IsPlaced)
      (omega arith) refl

advance_reaches_example :
    (entry_60.level ≡ 0)
    × (¬ Passed 10 (cursor set_60) (Firing.later set_60 10 % slots_per_level) entry_60.slot)
unfolding runs
advance_reaches_example =
    Firing.advance_reaches set_60 10 0 entry_60 entry_60 set_60-IsPlaced (λ z. cc) refl refl
      (omega arith)

advance_misses_example : vec_get (advance set_60 10).0.entries 0 ≡ some entry_60
unfolding runs
advance_misses_example =
    Firing.advance_misses set_60 10 0 entry_60 set_60-IsPlaced (λ z. cc) refl refl
      (λ h. ground arith)
