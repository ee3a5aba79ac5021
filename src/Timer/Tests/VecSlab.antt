-- ===== src/Timer/Tests/VecSlab.antt =====
-- A slab to run the wheel on: a vector of entries, with the first vacant place as the next key.
use zincio.Prelude.{
  vec_get, vec_key, vec_insert, vec_set, vec_key_vacant, vec_get-insert, vec_get-set,
  vec_get-remove, ℕ, zero, suc, ◌≡◌, refl, Bool, true, false, Option, none, some, List, [], ◌∷◌,
}
use zincio.Timer.Slab.{Slab, TimerEntry}

abbrev pub VecSlab : Type 0
VecSlab = List (Option TimerEntry)

abbrev pub vec_is_empty : VecSlab → Bool
vec_is_empty [] = true
vec_is_empty (none ∷ xs) = vec_is_empty xs
vec_is_empty (some e ∷ xs) = false

pub vec_empty_all : (s : VecSlab) → vec_is_empty s ≡ true → (i : ℕ) → vec_get s i ≡ none
vec_empty_all [] h i = refl
vec_empty_all (none ∷ xs) h zero = refl
vec_empty_all (none ∷ xs) h (suc i) = vec_empty_all xs h i
vec_empty_all (some e ∷ xs) h i = cc

pub vec_all_empty : (s : VecSlab) → ((i : ℕ) → vec_get s i ≡ none) → vec_is_empty s ≡ true
vec_all_empty [] h = refl
vec_all_empty (none ∷ xs) h = vec_all_empty xs (λ i. h (suc i))
vec_all_empty (some e ∷ xs) h = cc (h 0)

instance abbrev pub vec_slab : Slab VecSlab
vec_slab = record {
  new = [];
  get = vec_get;
  insert = vec_insert;
  next_key = vec_key;
  store = λ s k e. vec_set s k (some e);
  remove = λ s k. vec_set s k none;
  is_empty = vec_is_empty;
  get-new = λ i. refl;
  next_key_vacant = vec_key_vacant;
  get-insert = vec_get-insert;
  get-store = λ s k e i h. vec_get-set s k (some e) i h;
  get-remove = vec_get-remove;
  is_empty_iff = λ s. (vec_empty_all s, vec_all_empty s);
}
