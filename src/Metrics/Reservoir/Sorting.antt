-- ===== src/Metrics/Reservoir/Sorting.antt =====
-- Sorting the samples, in the signed order.
use orkai_observability.Metrics.Reservoir.{insert_sorted, sort}
use orkai_observability.Prelude.{
  ◌<◌, ◌==◌, All, Bool-cases, List, [], ap, arith, if◌then◌else◌, get_elem?, inl, inr, leb→le,
  length, refl, suc, zero, ℕ, ◌∙◌, ◌∷◌, ◌≡◌, ◌≤◌,
}
use orkai_observability.Prelude.Int64.{Int64, rank, sle}
use orkai_observability.Table.{or_zero}

abbrev pub IsSorted : List Int64 → Type 0
IsSorted [] = Unit
IsSorted (x ∷ xs) = All (λ y. rank x ≤ rank y) xs × IsSorted xs

-- How often a number occurs.
abbrev pub count : Int64 → List Int64 → ℕ
count a [] = 0
count a (x ∷ xs) = if x == a then suc (count a xs) else count a xs

All-weaken :
    (a b : ℕ) (xs : List Int64) → a ≤ b → All (λ y. b ≤ rank y) xs → All (λ y. a ≤ rank y) xs
All-weaken a b [] le h = tt
All-weaken a b (x ∷ xs) le h = (omega (arith, h.0), All-weaken a b xs le h.1)

All-insert_sorted :
    (a : ℕ) (x : Int64) (ys : List Int64)
    → a ≤ rank x
    → All (λ y. a ≤ rank y) ys
    → All (λ y. a ≤ rank y) (insert_sorted x ys)
unfolding insert_sorted
All-insert_sorted a x [] le h = (le, tt)
All-insert_sorted a x (y ∷ ys) le h = elim (Bool-cases (sle x y)) [
  | inl e ↦ rw e (le, h)
  | inr e ↦ rw e (h.0, All-insert_sorted a x ys le h.1)
]

insert_sorted-IsSorted : (x : Int64) (ys : List Int64) → IsSorted ys → IsSorted (insert_sorted x ys)
unfolding insert_sorted
insert_sorted-IsSorted x [] h = (tt, tt)
insert_sorted-IsSorted x (y ∷ ys) h = elim (Bool-cases (sle x y)) [
  | inl e ↦
      let le : rank x ≤ rank y = leb→le _ _ e in
      rw e ((le, All-weaken (rank x) (rank y) ys le h.0), h)
  | inr e ↦
      rw e (All-insert_sorted (rank y) x ys (ground arith) h.0, insert_sorted-IsSorted x ys h.1)
]

pub sort-IsSorted : (xs : List Int64) → IsSorted (sort xs)
unfolding sort
sort-IsSorted [] = tt
sort-IsSorted (x ∷ xs) = insert_sorted-IsSorted x (sort xs) (sort-IsSorted xs)

count-insert_sorted :
    (a x : Int64) (ys : List Int64) → count a (insert_sorted x ys) ≡ count a (x ∷ ys)
unfolding insert_sorted
count-insert_sorted a x [] = refl
count-insert_sorted a x (y ∷ ys) = ground (arith, count-insert_sorted a x ys)

pub count-sort : (a : Int64) (xs : List Int64) → count a (sort xs) ≡ count a xs
unfolding sort
count-sort a [] = refl
count-sort a (x ∷ xs) = ground (arith, count-insert_sorted a x (sort xs), count-sort a xs)

length-insert_sorted : (x : Int64) (ys : List Int64) → length (insert_sorted x ys) ≡ suc (length ys)
unfolding insert_sorted
length-insert_sorted x [] = refl
length-insert_sorted x (y ∷ ys) = ground (arith, length-insert_sorted x ys)

pub length-sort : (xs : List Int64) → length (sort xs) ≡ length xs
unfolding sort
length-sort [] = refl
length-sort (x ∷ xs) = length-insert_sorted x (sort xs) ∙ ap suc (length-sort xs)

All-at :
    (a : ℕ) (xs : List Int64) (i : ℕ)
    → i < length xs
    → All (λ y. a ≤ rank y) xs
    → a ≤ rank (or_zero 0 (get_elem? xs i))
All-at a [] i h all = absurd (omega arith)
All-at a (x ∷ xs) zero h all = all.0
All-at a (x ∷ xs) (suc i) h all = All-at a xs i (omega arith) all.1

-- In a sorted list a later position holds no smaller number.
pub sorted_at :
    (xs : List Int64) (i j : ℕ)
    → IsSorted xs
    → i ≤ j
    → j < length xs
    → rank (or_zero 0 (get_elem? xs i)) ≤ rank (or_zero 0 (get_elem? xs j))
sorted_at [] i j s le h = absurd (omega arith)
sorted_at (x ∷ xs) zero zero s le h = omega arith
sorted_at (x ∷ xs) zero (suc j) s le h = All-at (rank x) xs j (omega arith) s.0
sorted_at (x ∷ xs) (suc i) zero s le h = absurd (omega arith)
sorted_at (x ∷ xs) (suc i) (suc j) s le h = sorted_at xs i j s.1 (omega arith) (omega arith)

-- What stands in a list occurs in it.
pub count_at : (xs : List Int64) (i : ℕ) → i < length xs → 0 < count (or_zero 0 (get_elem? xs i)) xs
count_at [] i h = absurd (omega arith)
count_at (x ∷ xs) zero h = ground arith
count_at (x ∷ xs) (suc i) h = ground (arith, count_at xs i (omega arith))
