-- ===== src/Timer/Levels.antt =====
-- `TimingWheel::calculate_level_and_slot`: which wheel and which slot hold a delay.
use zincio.Prelude.{
  ℕ, zero, suc, ◌+◌, ◌-◌, ◌*◌, ◌/◌, ◌%◌, ◌^◌, ◌≤◌, ◌<◌, ◌≡◌, ◌⊎◌, ◌||◌, arith, leb, ◌==◌,
  if◌then◌else◌,
}

abbrev pub num_levels : ℕ
num_levels = 7

abbrev pub slots_per_level : ℕ
slots_per_level = 64

-- `(delay >> (6 * level)) & 63`.
abbrev pub slot_of : ℕ → ℕ → ℕ
slot_of level delay = delay / 2 ^ (6 * level) % slots_per_level

-- The loop `for level in 0..NUM_LEVELS`, with the rounds left; the last clause is the fallback.
unfoldable pub level_loop : ℕ → ℕ → ℕ → ℕ × ℕ
level_loop zero level delay = (num_levels - 1, slot_of (num_levels - 1) delay)
level_loop (suc rounds) level delay =
    let rest = level_loop rounds (level + 1) delay in
    if level == num_levels - 1
    then (level, slot_of level delay)
    else if leb delay (slots_per_level * 2 ^ (6 * level) - 1) || level == num_levels - 1
    then (level, slot_of level delay)
    else rest

unfoldable pub calculate_level_and_slot : ℕ → ℕ × ℕ
unfolding level_loop
calculate_level_and_slot delay = level_loop num_levels 0 delay

-- The level and slot are within the arrays.
pub calculate_bounds :
    (d : ℕ)
    → ((calculate_level_and_slot d).0 < num_levels)
      × ((calculate_level_and_slot d).1 < slots_per_level)
unfolding calculate_level_and_slot
calculate_bounds d = ground arith

-- For every delay the level is one of the 7 and the slot one of the 64, the level is the number of
-- base-64 digits below the leading one, cut off at the top level, and the slot is the digit there.
pub calculate_digits :
    (d : ℕ)
    → let l = (calculate_level_and_slot d).0 in
      (l < num_levels)
      × ((calculate_level_and_slot d).1 < slots_per_level)
      × ((l ≡ 0) ⊎ (64 ^ l ≤ d))
      × ((l ≡ 6) ⊎ (d < 64 ^ (l + 1)))
      × ((calculate_level_and_slot d).1 ≡ d / 64 ^ l % 64)
unfolding calculate_level_and_slot
calculate_digits d = ground arith

-- A delay below 64 ticks stands at level 0, in the slot of that number.
pub calculate_low : (d : ℕ) → d < slots_per_level → calculate_level_and_slot d ≡ (0, d)
unfolding calculate_level_and_slot
calculate_low d h = ground arith
