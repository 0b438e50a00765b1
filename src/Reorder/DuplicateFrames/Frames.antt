-- ===== src/Reorder/DuplicateFrames/Frames.antt =====
-- Which source frame each output frame of DuplicateFrames is.
use native.Mathlib.Decide.{dec_lt}
use cat_syn.Prelude.{
  ℕ, ◌+◌, ◌-◌, ◌≤◌, ◌<◌, ◌≡◌, refl, List, [], ◌∷◌, arith, map, All, length, ltb, if◌then◌else◌,
}
use cat_syn.Prelude.Int.{pos, int_sub-pos}
use cat_syn.Reorder.Sorting.{IsSorted, below, up_to}
use cat_syn.Reorder.DuplicateFrames.{duplicate_index}

-- The loop of the source on numbers that are not negative.
unfoldable pub index : ℕ → List ℕ → ℕ
index n [] = n
index n (x ∷ xs) = let earlier = index (n - 1) xs in if ltb x n then earlier else n

pub duplicate_index-pos :
    (n : ℕ) (xs : List ℕ) → n < 2147483648 → duplicate_index (pos n) (map pos xs) ≡ pos (index n xs)
unfolding duplicate_index index
duplicate_index-pos n [] h = refl
duplicate_index-pos n (x ∷ xs) h = ground (arith, int_sub-pos n 1, duplicate_index-pos (n - 1) xs)

index-ge : (n b : ℕ) (xs : List ℕ) → b ≤ n → All (λ y. b ≤ y) xs → b ≤ index n xs
unfolding index
index-ge n b [] h a = h
index-ge n b (x ∷ xs) h a = ground (arith, index-ge (n - 1) b xs)

below-zero : (f b : ℕ) (xs : List ℕ) → All (λ y. b ≤ y) xs → f ≤ b → below f xs ≡ 0
below-zero f b [] h le = refl
below-zero f b (x ∷ xs) h le = ground (arith, below-zero f b xs h.1 le)

-- The frame f at n has at least the duplicates of the frames before it in front, and at most those
-- and its own.
pub index_bounds :
    (n : ℕ) (xs : List ℕ)
    → IsSorted xs
    → let f = index n xs in (f + below f xs ≤ n) × (n ≤ f + up_to f xs)
unfolding index
index_bounds n [] s = omega arith
index_bounds n (x ∷ xs) s =
    ground (arith, index_bounds (n - 1) xs s.1, index-ge (n - 1) x xs, s.0, below-zero n x xs s.0)

below-len : (f len : ℕ) (xs : List ℕ) → All (λ y. y < len) xs → len ≤ f → below f xs ≡ length xs
below-len f len [] h le = refl
below-len f len (x ∷ xs) h le = ground (arith, below-len f len xs h.1 le)

-- The output frames come from frames that the source has.
pub index-inside :
    (n len : ℕ) (xs : List ℕ)
    → IsSorted xs
    → All (λ y. y < len) xs
    → n < len + length xs
    → index n xs < len
index-inside n len xs s h within = elim (dec_lt (index n xs) len) [
  | yes p ↦ p
  | no p ↦
      absurd (omega (arith, (index_bounds n xs s).0, below-len (index n xs) len xs h (omega arith)))
]
