-- ===== src/Prelude/Vectors.antt =====
-- A vector with vacant places, by place: what the tests take for the slabs.
use Prim.Native.Nat.{ℕ, zero, suc}
use mathlib.Core.Path.{◌≡◌, refl}
use mathlib.Core.Logic.{◌≢◌}
use mathlib.Core.Option.{Option, none, some}
use mathlib.Core.List.{List, [], ◌∷◌}
use native.Mathlib.Omega.{arith}
use zincio.Prelude.Tests.{◌==◌, if◌then◌else◌}

module _ {A : Type 0} where
  abbrev pub vec_get : List (Option A) → ℕ → Option A
  vec_get [] i = none
  vec_get (x ∷ xs) zero = x
  vec_get (x ∷ xs) (suc i) = vec_get xs i

  abbrev pub vec_key : List (Option A) → ℕ
  vec_key [] = 0
  vec_key (none ∷ xs) = 0
  vec_key (some e ∷ xs) = suc (vec_key xs)

  abbrev pub vec_insert : List (Option A) → A → List (Option A)
  vec_insert [] e = some e ∷ []
  vec_insert (none ∷ xs) e = some e ∷ xs
  vec_insert (some f ∷ xs) e = some f ∷ vec_insert xs e

  abbrev pub vec_set : List (Option A) → ℕ → Option A → List (Option A)
  vec_set [] i o = []
  vec_set (x ∷ xs) zero o = o ∷ xs
  vec_set (x ∷ xs) (suc i) o = x ∷ vec_set xs i o

  pub vec_key_vacant : (s : List (Option A)) → vec_get s (vec_key s) ≡ none
  vec_key_vacant [] = refl
  vec_key_vacant (none ∷ xs) = refl
  vec_key_vacant (some e ∷ xs) = vec_key_vacant xs

  pub vec_get-insert :
      (s : List (Option A)) (e : A) (i : ℕ)
      → vec_get (vec_insert s e) i ≡ (if vec_key s == i then some e else vec_get s i)
  vec_get-insert [] e zero = refl
  vec_get-insert [] e (suc i) = ground arith
  vec_get-insert (none ∷ xs) e zero = refl
  vec_get-insert (none ∷ xs) e (suc i) = ground arith
  vec_get-insert (some f ∷ xs) e zero = ground arith
  vec_get-insert (some f ∷ xs) e (suc i) = ground (arith, vec_get-insert xs e i)

  pub vec_get-set :
      (s : List (Option A)) (k : ℕ) (o : Option A) (i : ℕ)
      → vec_get s k ≢ none
      → vec_get (vec_set s k o) i ≡ (if k == i then o else vec_get s i)
  vec_get-set [] k o i h = absurd (h refl)
  vec_get-set (x ∷ xs) zero o zero h = refl
  vec_get-set (x ∷ xs) zero o (suc i) h = ground arith
  vec_get-set (x ∷ xs) (suc k) o zero h = ground arith
  vec_get-set (x ∷ xs) (suc k) o (suc i) h = ground (arith, vec_get-set xs k o i h)

  pub vec_get-remove :
      (s : List (Option A)) (k i : ℕ)
      → vec_get (vec_set s k none) i ≡ (if k == i then none else vec_get s i)
  vec_get-remove [] k i = ground arith
  vec_get-remove (x ∷ xs) zero zero = refl
  vec_get-remove (x ∷ xs) zero (suc i) = ground arith
  vec_get-remove (x ∷ xs) (suc k) zero = ground arith
  vec_get-remove (x ∷ xs) (suc k) (suc i) = ground (arith, vec_get-remove xs k i)
