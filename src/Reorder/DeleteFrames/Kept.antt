-- ===== src/Reorder/DeleteFrames/Kept.antt =====
-- Which frames of the source DeleteFrames keeps, told by the numbers given.
use cat_syn.Prelude.{
  ℕ, zero, suc, ◌+◌, ◌≤◌, ◌<◌, ◌≡◌, refl, Bool, true, false, List, [], ◌∷◌, ◌||◌, arith, map,
  count_if, Bool-cases, inl, inr, if◌then◌else◌,
}
use cat_syn.Prelude.Int.{ℤ, pos, ltb_ℤ, leb_ℤ, eqb_ℤ}
use cat_syn.Plugin.Qsort.{Qsort}
use cat_syn.Reorder.Shared.{compare_ints}
use cat_syn.Reorder.Sorting.{IsSorted, IsFrames, below, up_to, below-sort, up_to-sort}
use cat_syn.Reorder.DeleteFrames.{has_repeat}
use cat_syn.Reorder.DeleteFrames.Frames.{below-zero}

-- Frame i is to be deleted.
abbrev pub deleted : ℕ → List ℤ → Bool
deleted i [] = false
deleted i (x ∷ xs) = eqb_ℤ x (pos i) || deleted i xs

-- How many of the first i frames are not.
abbrev pub kept : ℕ → List ℤ → ℕ
kept zero xs = 0
kept (suc i) xs = kept i xs + (if deleted i xs then 0 else 1)

up_to-count :
    (i : ℕ) (xs : List ℤ)
    → count_if (λ x. leb_ℤ x (pos i)) xs
      ≡ count_if (λ x. ltb_ℤ x (pos i)) xs + count_if (λ x. eqb_ℤ x (pos i)) xs
up_to-count i [] = omega arith
up_to-count i (x ∷ xs) = ground (arith, up_to-count i xs)

deleted-count : (i : ℕ) (xs : List ℤ) → deleted i xs ≡ true → 0 < count_if (λ x. eqb_ℤ x (pos i)) xs
deleted-count i [] h = cc
deleted-count i (x ∷ xs) h = ground (arith, deleted-count i xs)

count-deleted :
    (i : ℕ) (xs : List ℤ) → count_if (λ x. eqb_ℤ x (pos i)) xs ≡ 0 → deleted i xs ≡ false
count-deleted i [] h = refl
count-deleted i (x ∷ xs) h = ground (arith, count-deleted i xs)

not_deleted-count :
    (i : ℕ) (xs : List ℤ) → deleted i xs ≡ false → count_if (λ x. eqb_ℤ x (pos i)) xs ≡ 0
not_deleted-count i [] h = refl
not_deleted-count i (x ∷ xs) h = ground (arith, not_deleted-count i xs)

-- Sorted numbers without neighbours that are equal have each number once.
once-up_to :
    (f : ℕ) (ys : List ℕ)
    → IsSorted ys
    → has_repeat (map pos ys) ≡ false
    → up_to f ys ≤ suc (below f ys)
unfolding has_repeat
once-up_to f [] s once = omega arith
once-up_to f (x ∷ []) s once = ground arith
once-up_to f (x ∷ y ∷ ys) s once =
    ground (arith, once-up_to f (y ∷ ys) s.1, s.0.0, below-zero f y ys s.1.0)

below-start : (ys : List ℕ) → below 0 ys ≡ 0
below-start [] = refl
below-start (y ∷ ys) = ground (arith, below-start ys)

below-suc : (i : ℕ) (ys : List ℕ) → below (suc i) ys ≡ up_to i ys
below-suc i [] = refl
below-suc i (y ∷ ys) = ground (arith, below-suc i ys)

module _ (qsort : Qsort compare_ints) (given : List ℤ) (len : ℕ) (ys : List ℕ)
    (frames : IsFrames len (qsort.sort given) ys) where
  up_to-split : (i : ℕ) → up_to i ys ≡ below i ys + count_if (λ x. eqb_ℤ x (pos i)) given
  up_to-split i = omega (
    arith,
    up_to-sort qsort given i len ys frames,
    below-sort qsort given i len ys frames,
    up_to-count i given,
  )

  -- The frames before i are those kept and those deleted.
  pub kept-below : has_repeat (map pos ys) ≡ false → (i : ℕ) → kept i given + below i ys ≡ i
  kept-below once zero = omega (arith, below-start ys)
  kept-below once (suc i) =
      let before = kept-below once i in
      let split = up_to-split i in
      let single = once-up_to i ys frames.sorted once in
      elim (Bool-cases (deleted i given)) [
        | inl gone ↦
            ground (arith, gone, deleted-count i given gone, before, split, single, below-suc i ys)
        | inr stays ↦
            ground (arith, stays, not_deleted-count i given stays, before, split, below-suc i ys)
      ]

  -- A frame with as many numbers below it as not above it is kept.
  pub level-deleted : (i : ℕ) → up_to i ys ≡ below i ys → deleted i given ≡ false
  level-deleted i level = count-deleted i given (omega (arith, up_to-split i))
