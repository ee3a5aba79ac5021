-- ===== src/Timer/Wheel/History.antt =====
-- Any sequence of calls to a new wheel.
use zincio.Prelude.{
  ℕ, ◌+◌, ◌≤◌, ◌<◌, ◌≡◌, refl, sym, inl, inr, List, [], ◌∷◌, Option, some, arith, ◌==◌, u64_add,
  u64_add_lem, u64_mod, length, Bool-cases,
}
use zincio.Timer.Slab.{Slab, TimerEntry}
use zincio.Timer.Wheel.{
  TimingWheel, TimerHandle, new, insert, remove, remove_entry, nearest_wakeup,
  refresh_min_expiration, non_zero,
}
use zincio.Timer.Wheel.Advance.{advance}
use zincio.Timer.Wheel.Firing.{advance_counter, advance_origin}
use zincio.Timer.Wheel.Removal.{
  IsLive, remove_cases, get-remove_entry, remove_entry_counter, remove_stale, remove_live,
  IsLive-dec,
}
use zincio.Timer.Wheel.Insertion.{insert_handle, get-inserted}
use zincio.Timer.Wheel.Placement.{
  IsPlaced, new-IsPlaced, insert-IsPlaced, remove-IsPlaced, advance-IsPlaced, refresh-IsPlaced,
}
use zincio.Timer.Wheel.Nearest.{
  IsTracked, IsLeast, new-IsTracked, refresh-IsTracked, refresh-IsLeast,
}
use zincio.Timer.Wheel.Tracking.{insert-IsTracked, remove-IsTracked, advance-IsTracked}

-- The methods that change the wheel.
pub data Call : Type 0 where
  inserts : (waker tick : ℕ) → Call
  removes : TimerHandle → Call
  advances : (ticks : ℕ) → Call
  asks_nearest : Call

module _ {S : Type 0} ⦃slab : Slab S⦄ where
  unfoldable pub step : TimingWheel S → Call → TimingWheel S
  step w (inserts waker tick) = (insert w waker tick).0
  step w (removes handle) = remove w handle
  step w (advances ticks) = (advance w ticks).0
  step w asks_nearest = (nearest_wakeup w).0

  unfoldable pub run : TimingWheel S → List Call → TimingWheel S
  run w [] = w
  run w (c ∷ cs) = run (step w c) cs

  step-IsPlaced : (w : TimingWheel S) (c : Call) → IsPlaced w → IsPlaced (step w c)
  unfolding step nearest_wakeup
  step-IsPlaced w (inserts waker tick) p = insert-IsPlaced w waker tick p
  step-IsPlaced w (removes handle) p = remove-IsPlaced w handle p
  step-IsPlaced w (advances ticks) p = advance-IsPlaced w ticks p
  step-IsPlaced w asks_nearest p = refresh-IsPlaced w p

  run-IsPlaced : (w : TimingWheel S) (cs : List Call) → IsPlaced w → IsPlaced (run w cs)
  unfolding run
  run-IsPlaced w [] p = p
  run-IsPlaced w (c ∷ cs) p = run-IsPlaced (step w c) cs (step-IsPlaced w c p)

  step_counter :
      (w : TimingWheel S) (c : Call)
      → w.generation_counter + 1 < u64_mod
      → (w.generation_counter ≤ (step w c).generation_counter)
        × ((step w c).generation_counter ≤ w.generation_counter + 1)
  unfolding step nearest_wakeup refresh_min_expiration
  step_counter w (inserts waker tick) room =
      omega (arith, (insert_handle w waker tick).3, u64_add_lem w.generation_counter 1 room)
  step_counter w (removes handle) room =
      remove_cases
        (λ v.
          (w.generation_counter ≤ v.generation_counter)
          × (v.generation_counter ≤ w.generation_counter + 1))
        w handle (omega arith) (λ e _. omega (arith, remove_entry_counter w handle.slab_index e))
  step_counter w (advances ticks) room = omega (arith, advance_counter w ticks)
  step_counter w asks_nearest room = omega arith

  step-IsTracked :
      (w : TimingWheel S) (c : Call)
      → w.generation_counter + 1 < u64_mod
      → IsTracked w
      → IsTracked (step w c)
  unfolding step nearest_wakeup
  step-IsTracked w (inserts waker tick) room t = insert-IsTracked w waker tick t room
  step-IsTracked w (removes handle) room t = remove-IsTracked w handle t
  step-IsTracked w (advances ticks) room t = advance-IsTracked w ticks t
  step-IsTracked w asks_nearest room t = refresh-IsTracked w t

  pub run-IsTracked :
      (w : TimingWheel S) (cs : List Call)
      → w.generation_counter + length cs < u64_mod
      → IsTracked w
      → IsTracked (run w cs)
  unfolding run
  run-IsTracked w [] room t = t
  run-IsTracked w (c ∷ cs) room t =
      run-IsTracked (step w c) cs (omega (arith, step_counter w c (omega arith)))
        (step-IsTracked w c (omega arith) t)

  -- No timer has the handle, and none inserted later will.
  record IsDead (h : TimerHandle) (w : TimingWheel S) : Type 0 where
    used : h.generation ≤ w.generation_counter
    absent : ¬ IsLive w h

  IsDead-fewer :
      (h : TimerHandle) (w v : TimingWheel S)
      → w.generation_counter ≡ v.generation_counter
      → ((f : TimerEntry)
          → slab.get v.entries h.slab_index ≡ some f
          → (e : TimerEntry) × (slab.get w.entries h.slab_index ≡ some e)
            × (f.generation ≡ e.generation))
      → IsDead h w
      → IsDead h v
  IsDead-fewer h w v same origin d = record {
    used = omega (arith, same, d.used);
    absent = λ (f, found, live).
        let (e, before, gen) = origin f found in d.absent (e, before, omega arith);
  }

  insert-IsDead :
      (h : TimerHandle) (w : TimingWheel S) (waker tick : ℕ)
      → w.generation_counter + 1 < u64_mod
      → IsDead h w
      → IsDead h (insert w waker tick).0
  insert-IsDead h w waker tick room d = record {
    used = omega (arith, d.used, (insert_handle w waker tick).3, fresh);
    absent = λ (f, found, live). elim (Bool-cases (slab.next_key w.entries == h.slab_index)) [
      | inl new_one ↦ ground (arith, get-inserted w waker tick h.slab_index, fresh, d.used)
      | inr old_one ↦ d.absent (f, ground (arith, get-inserted w waker tick h.slab_index), live)
    ];
  }
    where
      fresh : u64_add w.generation_counter 1 ≡ w.generation_counter + 1
      fresh = u64_add_lem w.generation_counter 1 room

  remove_entry-IsDead :
      (h : TimerHandle) (w : TimingWheel S) (index : ℕ) (e : TimerEntry)
      → IsDead h w
      → IsDead h (remove_entry w index e)
  remove_entry-IsDead h w index e d =
      IsDead-fewer h w (remove_entry w index e) (remove_entry_counter w index e)
        (λ f found. (f, ground (arith, get-remove_entry w index e h.slab_index), refl)) d

  step-IsDead :
      (h : TimerHandle) (w : TimingWheel S) (c : Call)
      → w.generation_counter + 1 < u64_mod
      → IsDead h w
      → IsDead h (step w c)
  unfolding step nearest_wakeup refresh_min_expiration
  step-IsDead h w (inserts waker tick) room d = insert-IsDead h w waker tick room d
  step-IsDead h w (removes other) room d =
      remove_cases (IsDead h) w other d (λ e _. remove_entry-IsDead h w other.slab_index e d)
  step-IsDead h w (advances ticks) room d =
      IsDead-fewer h w (advance w ticks).0 (sym (advance_counter w ticks))
        (λ f found.
          let (e, before, same) = advance_origin w ticks h.slab_index f found in
          (e, before, same.2))
        d
  step-IsDead h w asks_nearest room d = record { used = d.used; absent = d.absent }

  run-IsDead :
      (h : TimerHandle) (w : TimingWheel S) (cs : List Call)
      → w.generation_counter + length cs < u64_mod
      → IsDead h w
      → IsDead h (run w cs)
  unfolding run
  run-IsDead h w [] room d = d
  run-IsDead h w (c ∷ cs) room d =
      run-IsDead h (step w c) cs (omega (arith, step_counter w c (omega arith)))
        (step-IsDead h w c (omega arith) d)

  -- A handle whose timer was removed stays dead, also when its key is used again: after any
  -- further calls no timer has the handle, and a second removal by it changes nothing.
  pub remove_is_final :
      (w : TimingWheel S) (h : TimerHandle) (cs : List Call)
      → h.generation ≤ w.generation_counter
      → w.generation_counter + length cs < u64_mod
      → (¬ IsLive (run (remove w h) cs) h) × (remove (run (remove w h) cs) h ≡ run (remove w h) cs)
  remove_is_final w h cs issued room =
      (dead.absent, remove_stale (run (remove w h) cs) h dead.absent)
    where
      removed : IsDead h (remove w h)
      removed = elim (IsLive-dec w h) [
        | inl (e, found, live) ↦ rw (remove_live w h e found live) (record {
          used = omega (arith, issued, remove_entry_counter w h.slab_index e);
          absent =
              λ (f, left, same). ground (arith, get-remove_entry w h.slab_index e h.slab_index);
        })
        | inr dead ↦ rw (remove_stale w h dead) (record { used = issued; absent = dead })
      ]

      counter : (remove w h).generation_counter ≡ w.generation_counter
      counter =
          remove_cases (λ v. v.generation_counter ≡ w.generation_counter) w h refl
            (λ e _. sym (remove_entry_counter w h.slab_index e))

      dead : IsDead h (run (remove w h) cs)
      dead = run-IsDead h (remove w h) cs (omega (arith, counter)) removed

module _ (S : Type 0) ⦃slab : Slab S⦄ where
  -- After any calls to a new wheel each timer stands exactly once, in the slot that its entry
  -- names, no slot holds anything else, and every level and slot is within the arrays.
  pub run-new-IsPlaced : (cs : List Call) → IsPlaced (run (new {S = S}) cs)
  run-new-IsPlaced cs = run-IsPlaced (new {S = S}) cs new-IsPlaced

  new_counter : (new {S = S}).generation_counter ≡ 0
  unfolding new
  new_counter = refl

  -- After fewer than 2 ^ 64 calls to a new wheel, `nearest_wakeup` gives the least tick of all
  -- timers, or nothing if there is no timer or the least tick is 0.
  pub nearest_wakeup-IsLeast :
      (cs : List Call)
      → length cs < u64_mod
      → (least : Option ℕ) × IsLeast (run (new {S = S}) cs).entries least
        × ((nearest_wakeup (run (new {S = S}) cs)).1 ≡ non_zero least)
  unfolding nearest_wakeup
  nearest_wakeup-IsLeast cs room = (
    (refresh_min_expiration (run (new {S = S}) cs)).min_expiration_tick,
    refresh-IsLeast (run (new {S = S}) cs)
        (run-IsTracked (new {S = S}) cs (omega (arith, new_counter)) new-IsTracked),
    refl,
  )
