-- ===== src/Drivers/Slab.antt =====
-- What the drivers use of the third-party `slab` crate, with the documented behaviour of each call.
use zincio.Prelude.{
  ℕ, ◌≡◌, ◌≢◌, refl, Option, none, some, List, [], ◌==◌, if◌then◌else◌, vec_get, vec_key,
  vec_insert, vec_set, vec_key_vacant, vec_get-insert, vec_get-set, vec_get-remove,
}

-- `store s i a` is a write through `get_mut(i)`; `remove` is `try_remove`, which leaves a vacant key.
pub record Slab (A S : Type 0) : Type 0 where
  pub new : S
  pub get : S → ℕ → Option A
  pub insert : S → A → S
  pub next_key : S → ℕ
  pub store : S → ℕ → A → S
  pub remove : S → ℕ → S
  pub get-new : (i : ℕ) → get new i ≡ none
  pub next_key_vacant : (s : S) → get s (next_key s) ≡ none
  pub get-insert :
      (s : S) (a : A) (i : ℕ) → get (insert s a) i ≡ (if next_key s == i then some a else get s i)
  pub get-store :
      (s : S) (k : ℕ) (a : A) (i : ℕ)
      → get s k ≢ none
      → get (store s k a) i ≡ (if k == i then some a else get s i)
  pub get-remove : (s : S) (k i : ℕ) → get (remove s k) i ≡ (if k == i then none else get s i)

-- A vector with vacant places, which the tests run on.
instance abbrev pub vec_slab : {A : Type 0} → Slab A (List (Option A))
vec_slab = record {
  new = [];
  get = vec_get;
  insert = vec_insert;
  next_key = vec_key;
  store = λ s k a. vec_set s k (some a);
  remove = λ s k. vec_set s k none;
  get-new = λ i. refl;
  next_key_vacant = vec_key_vacant;
  get-insert = vec_get-insert;
  get-store = λ s k a i h. vec_get-set s k (some a) i h;
  get-remove = vec_get-remove;
}
