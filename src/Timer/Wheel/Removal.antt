-- ===== src/Timer/Wheel/Removal.antt =====
-- `remove` by cases: a handle of a live timer takes exactly that timer out, any other does nothing.
use zincio.Prelude.{
  ℕ, ◌≡◌, refl, inl, inr, ◌⊎◌, none, some, arith, ◌==◌, if◌then◌else◌, Bool-cases, ==→eq, ==_refl,
  Option-cases,
}
use zincio.Timer.Slab.{Slab, TimerEntry}
use zincio.Timer.Wheel.{TimingWheel, TimerHandle, remove, remove_entry, refresh_min_expiration}

module _ {S : Type 0} ⦃slab : Slab S⦄ where
  -- The handle names a timer of the wheel.
  abbrev pub IsLive : TimingWheel S → TimerHandle → Type 0
  IsLive w h =
      (e : TimerEntry) × (slab.get w.entries h.slab_index ≡ some e) × (e.generation ≡ h.generation)

  pub remove_live :
      (w : TimingWheel S) (h : TimerHandle) (e : TimerEntry)
      → slab.get w.entries h.slab_index ≡ some e
      → e.generation ≡ h.generation
      → remove w h ≡ remove_entry w h.slab_index e
  unfolding remove
  remove_live w h e found same = rw (found, remove) (rw (same, ==_refl h.generation))

  pub remove_stale : (w : TimingWheel S) (h : TimerHandle) → ¬ IsLive w h → remove w h ≡ w
  unfolding remove
  remove_stale w h dead = elim (Option-cases (slab.get w.entries h.slab_index)) [
    | inl e ↦ rw (e, remove)
    | inr (t, e) ↦ elim (Bool-cases (t.generation == h.generation)) [
      | inl same ↦ absurd (dead (t, e, ==→eq _ _ same))
      | inr other ↦ rw (e, remove) (rw other)
    ]
  ]

  pub IsLive-dec : (w : TimingWheel S) (h : TimerHandle) → IsLive w h ⊎ (¬ IsLive w h)
  IsLive-dec w h = elim (Option-cases (slab.get w.entries h.slab_index)) [
    | inl e ↦ inr (λ (t, found, same). cc)
    | inr (t, e) ↦ elim (Bool-cases (t.generation == h.generation)) [
      | inl same ↦ inl (t, e, ==→eq _ _ same)
      | inr other ↦ inr (λ (u, found, same). ground arith)
    ]
  ]

  pub remove_cases :
      (P : TimingWheel S → Type 0) (w : TimingWheel S) (h : TimerHandle)
      → P w
      → ((e : TimerEntry)
          → slab.get w.entries h.slab_index ≡ some e
          → P (remove_entry w h.slab_index e))
      → P (remove w h)
  remove_cases P w h stale live = elim (IsLive-dec w h) [
    | inl (e, found, same) ↦ rw (remove_live w h e found same) (live e found)
    | inr dead ↦ rw (remove_stale w h dead) stale
  ]

  pub get-remove_entry :
      (w : TimingWheel S) (index : ℕ) (e : TimerEntry) (i : ℕ)
      → slab.get (remove_entry w index e).entries i
        ≡ (if index == i then none else slab.get w.entries i)
  unfolding remove_entry refresh_min_expiration
  get-remove_entry w index e i = slab.get-remove w.entries index i

  pub remove_entry_counter :
      (w : TimingWheel S) (index : ℕ) (e : TimerEntry)
      → w.generation_counter ≡ (remove_entry w index e).generation_counter
  unfolding remove_entry refresh_min_expiration
  remove_entry_counter w index e = refl

  pub remove_entry_tick :
      (w : TimingWheel S) (index : ℕ) (e : TimerEntry)
      → (remove_entry w index e).current_tick ≡ w.current_tick
  unfolding remove_entry refresh_min_expiration
  remove_entry_tick w index e = refl
