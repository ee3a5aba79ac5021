-- ===== src/Timer/Wheel.antt =====
-- `TimingWheel`: its state and its operations. `expired` lists the wakers in the order in which the
-- source pushes them; a `&mut self` method takes the wheel and returns the new one.
pub mod Advance
pub mod Sweeps
pub mod Removal
pub mod Insertion
pub mod Placement
pub mod Completeness
pub mod Lateness
pub mod Firing
pub mod History
pub mod Outcome
pub mod Nearest
pub mod Tracking
use zincio.Prelude.{
  ℕ, zero, suc, ◌+◌, ◌-◌, ◌*◌, ◌%◌, ◌≤◌, ◌<◌, ◌≡◌, refl, Bool, true, false, ◌&&◌, Option, none,
  some, List, [], ◌∷◌, ◌++◌, min, leb, ltb, ◌==◌, if◌then◌else◌, u64_add,
}
use zincio.Timer.Levels.{num_levels, slots_per_level, calculate_level_and_slot}
use zincio.Timer.Slab.{Slab, TimerEntry, Waker}
use zincio.Timer.Heap.{HeapItem, push}

pub record TimerHandle : Type 0 where
  pub slab_index : ℕ
  pub generation : ℕ

-- `wheels : [Vec<Vec<usize>>; 7]`, by level and slot.
abbrev pub Wheels : Type 0
Wheels = ℕ → ℕ → List ℕ

abbrev pub set_slot : Wheels → ℕ → ℕ → List ℕ → Wheels
set_slot ws level slot v l s = if l == level && s == slot then v else ws l s

pub record TimingWheel (S : Type 0) : Type 0 where
  pub entries : S
  pub wheels : Wheels
  pub current_tick : ℕ
  pub generation_counter : ℕ
  pub min_expiration_tick : Option ℕ
  pub expiration_heap : List HeapItem

-- `position` and `Vec::remove`: the first place that holds the index.
unfoldable pub remove_first : ℕ → List ℕ → List ℕ
remove_first a [] = []
remove_first a (x ∷ xs) = if x == a then xs else x ∷ remove_first a xs

-- `and_then(NonZeroU64::new)`.
abbrev pub non_zero : Option ℕ → Option ℕ
non_zero none = none
non_zero (some n) = if n == 0 then none else some n

abbrev pub update_min_on_insert : Option ℕ → ℕ → Option ℕ
update_min_on_insert none tick = some tick
update_min_on_insert (some least) tick = some (min least tick)

module _ {S : Type 0} ⦃slab : Slab S⦄ where
  unfoldable pub new : TimingWheel S
  new = record {
    entries = slab.new;
    wheels = λ l s. [];
    current_tick = 0;
    generation_counter = 0;
    min_expiration_tick = none;
    expiration_heap = [];
  }

  unfoldable pub is_empty : TimingWheel S → Bool
  is_empty w = slab.is_empty w.entries

  -- The loop of `refresh_min_expiration`: the heap that is left, and the minimum.
  unfoldable pub pop_stale : S → List HeapItem → List HeapItem × Option ℕ
  pop_stale es [] = ([], none)
  pop_stale es (x ∷ xs) =
      let rest = pop_stale es xs in
      elim (slab.get es x.index) [
        | some entry ↦
            if entry.generation == x.gen then (x ∷ xs, some entry.expiration_tick) else rest
        | none ↦ rest
      ]

  unfoldable pub refresh_min_expiration : TimingWheel S → TimingWheel S
  refresh_min_expiration w =
      let (heap, least) = pop_stale w.entries w.expiration_heap in
      record w { min_expiration_tick = least; expiration_heap = heap }

  unfoldable pub nearest_wakeup : TimingWheel S → TimingWheel S × Option ℕ
  nearest_wakeup w = let w' = refresh_min_expiration w in (w', non_zero w'.min_expiration_tick)

  unfoldable pub insert : TimingWheel S → Waker → ℕ → TimingWheel S × TimerHandle
  insert w waker tick =
      let (level, slot) = calculate_level_and_slot (tick - w.current_tick) in
      let gen = u64_add w.generation_counter 1 in
      let key = slab.next_key w.entries in
      (
        record {
          entries = slab.insert w.entries (record {
            waker = waker;
            expiration_tick = tick;
            generation = gen;
            level = level;
            slot = slot;
          });
          wheels = set_slot w.wheels level slot (w.wheels level slot ++ key ∷ []);
          current_tick = w.current_tick;
          generation_counter = gen;
          min_expiration_tick = update_min_on_insert w.min_expiration_tick tick;
          expiration_heap = push (record { tick = tick; index = key; gen = gen }) w.expiration_heap;
        },
        record { slab_index = key; generation = gen },
      )

  -- The guarded body of `remove`.
  unfoldable pub remove_entry : TimingWheel S → ℕ → TimerEntry → TimingWheel S
  remove_entry w index entry = refresh_min_expiration (record w {
    wheels =
        set_slot w.wheels entry.level entry.slot
          (remove_first index (w.wheels entry.level entry.slot));
    entries = slab.remove w.entries index;
  })

  unfoldable pub remove : TimingWheel S → TimerHandle → TimingWheel S
  remove w handle = elim (slab.get w.entries handle.slab_index) [
    | some entry ↦
        if entry.generation == handle.generation then remove_entry w handle.slab_index entry else w
    | none ↦ w
  ]
