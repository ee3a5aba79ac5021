-- ===== src/Timer/Tests/Runs.antt =====
-- The scenarios of the source's own tests, and a late timer.
use zincio.Prelude.{ℕ, ◌≡◌, refl, [], ◌∷◌, u64_add}
use zincio.Timer.Levels.{calculate_level_and_slot}
use zincio.Timer.Heap.{push}
use zincio.Timer.Wheel.{
  TimingWheel, new, insert, remove, nearest_wakeup, refresh_min_expiration, pop_stale, remove_entry,
  remove_first, is_empty,
}
use zincio.Timer.Wheel.Advance.{
  advance, sweep, cascade_all_levels, cascade_down, cascade_level, process_passed,
  process_slots_at_level_0, sweep_slots, sweep_slot, sweep_timers, expire_or_move, move_entry,
}
use zincio.Timer.Tests.VecSlab.{VecSlab, vec_slab}

-- All that an advance computes with.
unfoldable pub runs : ℕ
unfolding calculate_level_and_slot push new insert remove nearest_wakeup refresh_min_expiration
    pop_stale remove_entry remove_first advance sweep cascade_all_levels cascade_down cascade_level
    process_passed process_slots_at_level_0 sweep_slots sweep_slot sweep_timers expire_or_move
    move_entry u64_add is_empty
runs = 0

three : TimingWheel VecSlab
three = (insert (insert (insert new 1 10).0 2 100).0 3 5000).0

three_first : (advance three 10).1 ≡ 1 ∷ []
unfolding three runs
three_first = refl

three_second : (advance (advance three 10).0 90).1 ≡ 2 ∷ []
unfolding three runs
three_second = refl

three_third : (advance (advance (advance three 10).0 90).0 4900).1 ≡ 3 ∷ []
unfolding three runs
three_third = refl

late : (advance (insert (advance (new {S = VecSlab}) 50).0 7 60).0 10).1 ≡ []
unfolding runs
late = refl
