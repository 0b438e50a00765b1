-- ===== src/Reorder/DeleteFrames/Frames.antt =====
-- Which source frame each output frame of DeleteFrames is.
use native.Mathlib.Decide.{dec_lt}
use cat_syn.Prelude.{
  ℕ, ◌+◌, ◌≤◌, ◌<◌, ◌≡◌, refl, List, [], ◌∷◌, false, arith, map, All, length, leb, if◌then◌else◌,
}
use cat_syn.Prelude.Int.{pos, int_add-pos}
use cat_syn.Reorder.Sorting.{IsSorted, below, up_to}
use cat_syn.Reorder.DeleteFrames.{delete_index, has_repeat}

-- The loop of the source on numbers that are not negative.
unfoldable pub index : ℕ → List ℕ → ℕ
index n [] = n
index n (x ∷ xs) = let later = index (n + 1) xs in if leb x n then later else n

pub delete_index-pos :
    (n : ℕ) (xs : List ℕ)
    → n + length xs < 2147483648
    → delete_index (pos n) (map pos xs) ≡ pos (index n xs)
unfolding delete_index index
delete_index-pos n [] h = refl
delete_index-pos n (x ∷ xs) h = ground (arith, int_add-pos n 1, delete_index-pos (n + 1) xs)

index-ge : (n : ℕ) (xs : List ℕ) → n ≤ index n xs
unfolding index
index-ge n [] = omega arith
index-ge n (x ∷ xs) = ground (arith, index-ge (n + 1) xs)

pub below-zero :
    (f b : ℕ) (xs : List ℕ) → All (λ y. b ≤ y) xs → f < b → (below f xs ≡ 0) × (up_to f xs ≡ 0)
below-zero f b [] h lt = (refl, refl)
below-zero f b (x ∷ xs) h lt = ground (arith, below-zero f b xs h.1 lt)

-- The frame f at n is not deleted, and n frames before it are not.
pub index_bounds :
    (n : ℕ) (xs : List ℕ)
    → IsSorted xs
    → let f = index n xs in (n + below f xs ≡ f) × (up_to f xs ≡ below f xs)
unfolding index
index_bounds n [] s = ground arith
index_bounds n (x ∷ xs) s =
    ground (arith, index_bounds (n + 1) xs s.1, index-ge (n + 1) xs, s.0, below-zero n x xs s.0)

pub below-len : (f len : ℕ) (xs : List ℕ) → All (λ y. y < len) xs → len ≤ f → below f xs ≡ length xs
below-len f len [] h le = refl
below-len f len (x ∷ xs) h le = ground (arith, below-len f len xs h.1 le)

-- The output frames come from frames that the source has.
pub index-inside :
    (n len : ℕ) (xs : List ℕ)
    → IsSorted xs
    → All (λ y. y < len) xs
    → n + length xs < len
    → index n xs < len
index-inside n len xs s h within = elim (dec_lt (index n xs) len) [
  | yes p ↦ p
  | no p ↦
      absurd (omega (arith, (index_bounds n xs s).0, below-len (index n xs) len xs h (omega arith)))
]

room_from :
    (len x : ℕ) (xs : List ℕ)
    → IsSorted (x ∷ xs)
    → All (λ y. y < len) (x ∷ xs)
    → has_repeat (map pos (x ∷ xs)) ≡ false
    → x + length (x ∷ xs) ≤ len
unfolding has_repeat
room_from len x [] s h once = omega (arith, h.0)
room_from len x (y ∷ ys) s h once = ground (arith, room_from len y ys s.1 h.1, s.0.0)

-- A source has as many frames as different ones are deleted, or more.
pub length-fits :
    (len : ℕ) (xs : List ℕ)
    → IsSorted xs
    → All (λ y. y < len) xs
    → has_repeat (map pos xs) ≡ false
    → length xs ≤ len
length-fits len [] s h once = omega arith
length-fits len (x ∷ xs) s h once = omega (arith, room_from len x xs s h once)
