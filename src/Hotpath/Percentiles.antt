-- ===== src/Hotpath/Percentiles.antt =====
-- `percentile` of moxi-hotpath is the nearest-rank percentile.
use essence_agent.Base.{
  ℕ, zero, suc, ◌+◌, ◌-◌, ◌*◌, ◌/◌, ◌≤◌, ◌<◌, min, max, Bool, ◌≡◌, inl, inr, refl, ap, some, List,
  [], ◌∷◌, if◌then◌else◌, All, leb, ltb, length, arith, Bool-cases, subst,
}
use native.Mathlib.Nat.{mul_comm, one-le-mul, mul-le-mul_left}
use essence_agent.Hotpath.Latency.{place, sort_unstable, element, rank_of, div_ceil, percentile}

abbrev pub count : (ℕ → Bool) → List ℕ → ℕ
count p [] = 0
count p (x ∷ xs) = (if p x then 1 else 0) + count p xs

abbrev pub at_most : ℕ → List ℕ → ℕ
at_most v = count (λ x. leb x v)

abbrev pub below : ℕ → List ℕ → ℕ
below v = count (λ x. ltb x v)

abbrev pub IsSorted : List ℕ → Type 0
IsSorted [] = Unit
IsSorted (x ∷ xs) = All (λ y. x ≤ y) xs × IsSorted xs

count-place :
    (p : ℕ → Bool) (x : ℕ) (ys : List ℕ)
    → count p (place x ys) ≡ (if p x then 1 else 0) + count p ys
count-place p x [] = refl
count-place p x (y ∷ ys) = elim (Bool-cases (leb x y)) [
  | inl le ↦ rw le refl
  | inr gt ↦ rw gt (omega (arith, count-place p x ys))
]

pub count-sort : (p : ℕ → Bool) (xs : List ℕ) → count p (sort_unstable xs) ≡ count p xs
unfolding sort_unstable
count-sort p [] = refl
count-sort p (x ∷ xs) = omega (arith, count-place p x (sort_unstable xs), count-sort p xs)

length-place : (x : ℕ) (ys : List ℕ) → length (place x ys) ≡ suc (length ys)
length-place x [] = refl
length-place x (y ∷ ys) = ground (arith, length-place x ys)

pub length-sort : (xs : List ℕ) → length (sort_unstable xs) ≡ length xs
unfolding sort_unstable
length-sort [] = refl
length-sort (x ∷ xs) = omega (arith, length-place x (sort_unstable xs), length-sort xs)

All-place : (P : ℕ → Type 0) (x : ℕ) (ys : List ℕ) → P x → All P ys → All P (place x ys)
All-place P x [] px all = (px, tt)
All-place P x (y ∷ ys) px (py, all) = elim (Bool-cases (leb x y)) [
  | inl le ↦ rw le (px, (py, all))
  | inr gt ↦ rw gt (py, All-place P x ys px all)
]

All-le : (x y : ℕ) (zs : List ℕ) → x ≤ y → All (λ z. y ≤ z) zs → All (λ z. x ≤ z) zs
All-le x y [] h all = tt
All-le x y (z ∷ zs) h (first, all) = (omega (arith, h, first), All-le x y zs h all)

place-IsSorted : (x : ℕ) (ys : List ℕ) → IsSorted ys → IsSorted (place x ys)
place-IsSorted x [] sorted = (tt, tt)
place-IsSorted x (y ∷ ys) (first, sorted) = elim (Bool-cases (leb x y)) [
  | inl le ↦ rw le ((ground (arith, le), All-le x y ys (ground (arith, le)) first), (first, sorted))
  | inr gt ↦
      rw gt (All-place (λ z. y ≤ z) x ys (ground (arith, gt)) first, place-IsSorted x ys sorted)
]

pub sort-IsSorted : (xs : List ℕ) → IsSorted (sort_unstable xs)
unfolding sort_unstable
sort-IsSorted [] = tt
sort-IsSorted (x ∷ xs) = place-IsSorted x (sort_unstable xs) (sort-IsSorted xs)

All-element : (P : ℕ → Type 0) (xs : List ℕ) (i v : ℕ) → All P xs → element xs i ≡ some v → P v
All-element P [] i v all h = absurd (ground arith)
All-element P (x ∷ xs) zero v (px, all) h = subst P (ground (arith, h)) px
All-element P (x ∷ xs) (suc i) v (px, all) h = All-element P xs i v all h

element_below : (xs : List ℕ) (i : ℕ) → i < length xs → (v : ℕ) × (element xs i ≡ some v)
element_below [] i h = absurd (omega (arith, h))
element_below (x ∷ xs) zero h = (x, refl)
element_below (x ∷ xs) (suc i) h = element_below xs i (omega (arith, h))

none_below : (v : ℕ) (xs : List ℕ) → All (λ y. v ≤ y) xs → below v xs ≡ 0
none_below v [] all = refl
none_below v (x ∷ xs) (h, all) = ground (arith, h, none_below v xs all)

-- In a sorted list, an element has at most its index of smaller ones, and more that are not greater.
element_counts :
    (xs : List ℕ) (i v : ℕ)
    → IsSorted xs
    → element xs i ≡ some v
    → (suc i ≤ at_most v xs) × (below v xs ≤ i)
element_counts [] i v sorted h = absurd (ground arith)
element_counts (x ∷ xs) zero v (first, sorted) h = ground (arith, h, none_below x xs first)
element_counts (x ∷ xs) (suc i) v (first, sorted) h =
    let above = All-element (λ y. x ≤ y) xs i v first h in
    ground (arith, element_counts xs i v sorted h, above)

-- The value of the nearest rank: a sample such that the share of samples not above it reaches the
-- percentage, and the share below it does not.
pub record IsPercentile (percent v : ℕ) (values : List ℕ) : Type 0 where
  pub is_sample : below v values < at_most v values
  pub reached : percent * length values ≤ 100 * at_most v values
  pub not_before : 100 * below v values < percent * length values

rank_between :
    (n w : ℕ)
    → 1 ≤ w
    → w ≤ 100 * n
    → (1 ≤ max ((w + 99) / 100) 1)
      × (max ((w + 99) / 100) 1 ≤ n)
      × (w ≤ 100 * max ((w + 99) / 100) 1)
      × (100 * max ((w + 99) / 100) 1 < w + 100)
rank_between n w h k = omega arith

rank_bounds :
    (n percent : ℕ)
    → 1 ≤ percent
    → percent ≤ 100
    → 1 ≤ n
    → (1 ≤ rank_of n percent)
      × (rank_of n percent ≤ n)
      × (n * percent ≤ 100 * rank_of n percent)
      × (100 * rank_of n percent < n * percent + 100)
unfolding div_ceil
rank_bounds n percent h k l =
    rank_between n (n * percent) (one-le-mul l h) (omega (arith, mul-le-mul_left n k))

module _ (values : List ℕ) (percent : ℕ) where
  -- The percentile of sorted values is the nearest-rank percentile, for a percentage from 1 to 100
  -- and at least one value; it never indexes out of range.
  pub percentile_lem :
      1 ≤ percent
      → percent ≤ 100
      → 1 ≤ length values
      → (v : ℕ) × (percentile (sort_unstable values) percent ≡ some v)
        × IsPercentile percent v values
  unfolding percentile
  percentile_lem h k l =
      let sorted = sort_unstable values in
      let index = min (rank_of (length sorted) percent - 1) (length sorted - 1) in
      let same = length-sort values in
      let (low, high, enough, tight) =
        rank_bounds (length sorted) percent h k (omega (arith, same, l)) in
      let (v, found) = element_below sorted index (omega (arith, same, l)) in
      let (most, less) = element_counts sorted index v (sort-IsSorted values) found in
      let all_most = count-sort (λ x. leb x v) values in
      let all_less = count-sort (λ x. ltb x v) values in
      let product = mul_comm (length sorted) percent in
      let counted = ap (λ n. percent * n) same in
      (
        v,
        found,
        record {
          is_sample = omega (arith, most, less, all_most, all_less);
          reached =
              omega (arith, most, less, all_most, all_less, low, high, enough, product, counted);
          not_before =
              omega (arith, most, less, all_most, all_less, low, high, tight, product, counted);
        },
      )
