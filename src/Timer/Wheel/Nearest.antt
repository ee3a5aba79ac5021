-- ===== src/Timer/Wheel/Nearest.antt =====
-- The expiration heap covers every timer, so that `nearest_wakeup` is the least tick of all timers.
use zincio.Prelude.{
  ℕ, ◌≤◌, ◌≡◌, ◌≢◌, refl, ap, inl, inr, List, [], ◌∷◌, Option, none, some, arith, ◌==◌, Bool-cases,
  ==→eq, In, Option-cases,
}
use zincio.Timer.Slab.{Slab, TimerEntry}
use zincio.Timer.Heap.{HeapItem, IsSorted, In-AllGe}
use zincio.Timer.Wheel.{TimingWheel, new, pop_stale, refresh_min_expiration}

abbrev pub item_of : ℕ → TimerEntry → HeapItem
item_of i e = record { tick = e.expiration_tick; index = i; gen = e.generation }

module _ {S : Type 0} ⦃slab : Slab S⦄ where
  -- A heap item with the generation of the timer at its index has that timer's tick.
  abbrev pub IsAccurate : S → HeapItem → Type 0
  IsAccurate es x =
      (e : TimerEntry)
      → slab.get es x.index ≡ some e
      → e.generation ≡ x.gen
      → e.expiration_tick ≡ x.tick

  pub record Tracks (es : S) (heap : List HeapItem) (counter : ℕ) : Type 0 where
    pub sorted : IsSorted heap
    pub covers : (i : ℕ) (e : TimerEntry) → slab.get es i ≡ some e → In (item_of i e) heap
    pub old : (x : HeapItem) → In x heap → x.gen ≤ counter
    pub accurate : (x : HeapItem) → In x heap → IsAccurate es x

  -- The heap of a wheel tracks its timers.
  abbrev pub IsTracked : TimingWheel S → Type 0
  IsTracked w = Tracks w.entries w.expiration_heap w.generation_counter

  pub new-IsTracked : IsTracked new
  unfolding new
  new-IsTracked = record {
    sorted = tt;
    covers = λ i e h. ground (arith, slab.get-new i);
    old = λ x m. absurd m;
    accurate = λ x m. absurd m;
  }

  -- What `pop_stale` drops belongs to no timer.
  covers-tail :
      (es : S) (x : HeapItem) (xs : List HeapItem)
      → ((e : TimerEntry) → slab.get es x.index ≡ some e → e.generation ≢ x.gen)
      → ((i : ℕ) (e : TimerEntry) → slab.get es i ≡ some e → In (item_of i e) (x ∷ xs))
      → (i : ℕ) (e : TimerEntry) → slab.get es i ≡ some e
      → In (item_of i e) xs
  covers-tail es x xs stale covers i e h = elim (covers i e h) [
    | inl same ↦ absurd (stale e (ground arith) (ground arith))
    | inr m ↦ m
  ]

  Tracks-tail :
      (es : S) (x : HeapItem) (xs : List HeapItem) (c : ℕ)
      → ((e : TimerEntry) → slab.get es x.index ≡ some e → e.generation ≢ x.gen)
      → Tracks es (x ∷ xs) c
      → Tracks es xs c
  Tracks-tail es x xs c stale t = record {
    sorted = t.sorted.1;
    covers = covers-tail es x xs stale t.covers;
    old = λ y m. t.old y (inr m);
    accurate = λ y m. t.accurate y (inr m);
  }

  -- The least tick of all timers, or the absence of timers.
  abbrev pub IsLeast : S → Option ℕ → Type 0
  IsLeast es none = (i : ℕ) → slab.get es i ≡ none
  IsLeast es (some t) =
      ((i : ℕ) × (e : TimerEntry) × (slab.get es i ≡ some e) × (e.expiration_tick ≡ t))
      × ((i : ℕ) (e : TimerEntry) → slab.get es i ≡ some e → t ≤ e.expiration_tick)

  abbrev Refreshed : S → ℕ → List HeapItem × Option ℕ → Type 0
  Refreshed es c (heap, least) = Tracks es heap c × IsLeast es least

  top-IsLeast :
      (es : S) (x : HeapItem) (xs : List HeapItem) (c : ℕ) (top : TimerEntry)
      → Tracks es (x ∷ xs) c
      → slab.get es x.index ≡ some top
      → top.generation ≡ x.gen
      → IsLeast es (some top.expiration_tick)
  top-IsLeast es x xs c top t found live = (
    (x.index, top, found, refl),
    λ i e h. elim (t.covers i e h) [
      | inl same ↦
          omega (arith, t.accurate x (inl refl) top found live, ap (λ (y : HeapItem). y.tick) same)
      | inr m ↦ omega (
        arith,
        t.accurate x (inl refl) top found live,
        In-AllGe x.tick (item_of i e) xs t.sorted.0 m,
      )
    ],
  )

  pop_stale-Refreshed :
      (es : S) (heap : List HeapItem) (c : ℕ)
      → Tracks es heap c
      → Refreshed es c (pop_stale es heap)
  unfolding pop_stale
  pop_stale-Refreshed es [] c t = (
    t,
    λ i. elim (Option-cases (slab.get es i)) [ inl e ↦ e | inr (e, h) ↦ absurd (t.covers i e h) ],
  )
  pop_stale-Refreshed es (x ∷ xs) c t = elim (Option-cases (slab.get es x.index)) [
    | inl e ↦ rw (e, pop_stale) (pop_stale-Refreshed es xs c (Tracks-tail es x xs c (λ f h. cc) t))
    | inr (top, e) ↦ elim (Bool-cases (top.generation == x.gen)) [
      | inl live ↦ rw (e, pop_stale) (rw live (t, top-IsLeast es x xs c top t e (==→eq _ _ live)))
      | inr stale ↦
          rw (e, pop_stale)
            (rw stale (pop_stale-Refreshed es xs c (Tracks-tail es x xs c (λ f h. ground arith) t)))
    ]
  ]

  pub refresh-IsTracked : (w : TimingWheel S) → IsTracked w → IsTracked (refresh_min_expiration w)
  unfolding refresh_min_expiration
  refresh-IsTracked w t = (pop_stale-Refreshed w.entries w.expiration_heap w.generation_counter t).0

  pub refresh-IsLeast :
      (w : TimingWheel S)
      → IsTracked w
      → IsLeast w.entries (refresh_min_expiration w).min_expiration_tick
  unfolding refresh_min_expiration
  refresh-IsLeast w t = (pop_stale-Refreshed w.entries w.expiration_heap w.generation_counter t).1
