-- ===== src/Timer/Heap.antt =====
-- `BinaryHeap<Reverse<(u64, usize, u64)>>`: the least triple first, as a list in ascending order.
use zincio.Prelude.{
  ℕ, ◌≤◌, ◌≡◌, refl, ◌⊎◌, inl, inr, Bool, ◌&&◌, ◌||◌, List, [], ◌∷◌, arith, ltb, leb, ◌==◌,
  if◌then◌else◌, In,
}

pub record HeapItem : Type 0 where
  pub tick : ℕ
  pub index : ℕ
  pub gen : ℕ

-- The derived order on triples.
abbrev pub item_le : HeapItem → HeapItem → Bool
item_le a b =
    ltb a.tick b.tick
    || (a.tick == b.tick && (ltb a.index b.index || (a.index == b.index && leb a.gen b.gen)))

unfoldable pub push : HeapItem → List HeapItem → List HeapItem
push x [] = x ∷ []
push x (y ∷ ys) = if item_le x y then x ∷ y ∷ ys else y ∷ push x ys

abbrev pub AllGe : ℕ → List HeapItem → Type 0
AllGe t [] = Unit {0}
AllGe t (x ∷ xs) = (t ≤ x.tick) × AllGe t xs

abbrev pub IsSorted : List HeapItem → Type 0
IsSorted [] = Unit {0}
IsSorted (x ∷ xs) = AllGe x.tick xs × IsSorted xs

pub AllGe-le : (s t : ℕ) (xs : List HeapItem) → s ≤ t → AllGe t xs → AllGe s xs
AllGe-le s t [] h a = tt
AllGe-le s t (x ∷ xs) h a = (omega arith, AllGe-le s t xs h a.1)

pub AllGe-push :
    (t : ℕ) (x : HeapItem) (xs : List HeapItem) → t ≤ x.tick → AllGe t xs → AllGe t (push x xs)
unfolding push
AllGe-push t x [] h a = (h, tt)
AllGe-push t x (y ∷ ys) h a = ground (arith, AllGe-push t x ys h a.1)

pub push-IsSorted : (x : HeapItem) (xs : List HeapItem) → IsSorted xs → IsSorted (push x xs)
unfolding push
push-IsSorted x [] s = (tt, tt)
push-IsSorted x (y ∷ ys) s =
    ground (arith, push-IsSorted x ys s.1, AllGe-push y.tick x ys, AllGe-le x.tick y.tick ys)

pub In-AllGe : (t : ℕ) (x : HeapItem) (xs : List HeapItem) → AllGe t xs → In x xs → t ≤ x.tick
In-AllGe t x [] a m = absurd m
In-AllGe t x (y ∷ ys) a (inl e) = ground arith
In-AllGe t x (y ∷ ys) a (inr m) = In-AllGe t x ys a.1 m

-- Exactly the pushed item joins the heap.
pub In-push : (x y : HeapItem) (ys : List HeapItem) → In x (push y ys) → (x ≡ y) ⊎ In x ys
unfolding push
In-push x y [] (inl e) = inl e
In-push x y [] (inr m) = absurd m
In-push x y (z ∷ zs) m = ground (arith, In-push x y zs)

pub push-In_self : (x : HeapItem) (ys : List HeapItem) → In x (push x ys)
unfolding push
push-In_self x [] = inl refl
push-In_self x (y ∷ ys) = ground (arith, push-In_self x ys)

pub push-In : (x y : HeapItem) (ys : List HeapItem) → In x ys → In x (push y ys)
unfolding push
push-In x y [] m = absurd m
push-In x y (z ∷ zs) (inl e) = ground arith
push-In x y (z ∷ zs) (inr m) = ground (arith, push-In x y zs m)
