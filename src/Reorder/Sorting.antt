-- ===== src/Reorder/Sorting.antt =====
-- The frame numbers that DuplicateFrames and DeleteFrames sort, as numbers that are not negative.
use native.Mathlib.Decide.{dec_lt}
use cat_syn.Prelude.{
  Bool-cases, inl, inr, ℕ, ◌+◌, ◌≤◌, ◌<◌, ◌≡◌, refl, sym, ◌∙◌, ap, subst, Bool, true, false, List,
  [], ◌∷◌, ◌||◌, arith, map, All, length, length-map, count_if, ltb, leb,
}
use cat_syn.Prelude.Int.{ℤ, pos, pos_part, ltb_ℤ, leb_ℤ, ◌≤ℤ◌, int_add, int_add-wraps}
use cat_syn.Plugin.Clips.Laws.{any_bad}
use cat_syn.Plugin.Qsort.{Qsort, IsOrdered, IsAll, IsConsistent}
use cat_syn.Reorder.Shared.{compare_ints}

abbrev pub IsSorted : List ℕ → Type 0
IsSorted [] = Unit
IsSorted (x ∷ xs) = All (λ y. x ≤ y) xs × IsSorted xs

-- How many of the numbers are below, or not above, a frame.
abbrev pub below : ℕ → List ℕ → ℕ
below f xs = count_if (λ x. ltb x f) xs

abbrev pub up_to : ℕ → List ℕ → ℕ
up_to f xs = count_if (λ x. leb x f) xs

any_bad-count : (bad : ℤ → Bool) (xs : List ℤ) → any_bad bad xs ≡ false → count_if bad xs ≡ 0
any_bad-count bad [] h = refl
any_bad-count bad (x ∷ xs) h = ground (arith, any_bad-count bad xs)

count-any_bad : (bad : ℤ → Bool) (xs : List ℤ) → count_if bad xs ≡ 0 → any_bad bad xs ≡ false
count-any_bad bad [] h = refl
count-any_bad bad (x ∷ xs) h = ground (arith, count-any_bad bad xs)

count_if-true : (xs : List ℤ) → count_if (λ _. true) xs ≡ length xs
count_if-true [] = refl
count_if-true (x ∷ xs) = omega (arith, count_if-true xs)

-- What an ordered list of frame numbers within `len` frames is, as natural numbers.
pub record IsFrames (len : ℕ) (xs : List ℤ) (ys : List ℕ) : Type 0 where
  pub same : xs ≡ map pos ys
  pub sorted : IsSorted ys
  pub inside : All (λ y. y < len) ys

abbrev pub outside : ℕ → ℤ → Bool
outside len x = ltb_ℤ x (pos 0) || leb_ℤ (pos len) x

ordered-le :
    (x : ℕ) (ys : List ℕ)
    → All (λ y. compare_ints (pos x) y ≤ℤ pos 0) (map pos ys)
    → All (λ y. x ≤ y) ys
unfolding compare_ints
ordered-le x [] h = tt
ordered-le x (y ∷ ys) h = (ground arith, ordered-le x ys h.1)

ordered-IsSorted : (ys : List ℕ) → IsOrdered compare_ints (map pos ys) → IsSorted ys
ordered-IsSorted [] h = tt
ordered-IsSorted (y ∷ ys) h = (ordered-le y ys h.0, ordered-IsSorted ys h.1)

map-pos_part :
    (len : ℕ) (xs : List ℤ) → any_bad (outside len) xs ≡ false → xs ≡ map pos (map pos_part xs)
map-pos_part len [] h = refl
map-pos_part len (x ∷ xs) h = ground (arith, map-pos_part len xs)

inside-All :
    (len : ℕ) (xs : List ℤ)
    → any_bad (outside len) xs ≡ false
    → All (λ y. y < len) (map pos_part xs)
inside-All len [] h = tt
inside-All len (x ∷ xs) h = ground (arith, inside-All len xs)

below-map : (f : ℕ) (ys : List ℕ) → count_if (λ x. ltb_ℤ x (pos f)) (map pos ys) ≡ below f ys
below-map f [] = refl
below-map f (y ∷ ys) = ground (arith, below-map f ys)

up_to-map : (f : ℕ) (ys : List ℕ) → count_if (λ x. leb_ℤ x (pos f)) (map pos ys) ≡ up_to f ys
up_to-map f [] = refl
up_to-map f (y ∷ ys) = ground (arith, up_to-map f ys)

-- No sum that passes the overflow test of the source wraps.
pub sum_fits :
    (len k : ℕ)
    → len < 2147483648
    → k < 2147483648
    → ltb_ℤ (int_add (pos len) (pos k)) (pos len) ≡ false
    → len + k < 2147483648
sum_fits len k hl hk h = elim (dec_lt (len + k) 2147483648) [
  | yes p ↦ p
  | no p ↦ ground (arith, int_add-wraps len k)
]

compare_ints-IsConsistent : IsConsistent compare_ints (λ _. true)
unfolding compare_ints
compare_ints-IsConsistent = record {
  total = λ x y px py. elim (Bool-cases (leb_ℤ x y)) [
    | inl e ↦ inl (ground arith)
    | inr e ↦ inr (ground arith)
  ];
  transitive = λ x y z px py pz h h'. ground arith;
}

compare_ints-IsAll : (xs : List ℤ) → IsAll compare_ints (λ _. true) xs
compare_ints-IsAll [] = tt
compare_ints-IsAll (x ∷ xs) = (refl, compare_ints-IsAll xs)

module _ (qsort : Qsort compare_ints) (given : List ℤ) where
  pub length-sort : length (qsort.sort given) ≡ length given
  length-sort =
      sym (count_if-true (qsort.sort given)) ∙ qsort.same (λ _. true) given ∙ count_if-true given

  -- Sorting numbers of which none is outside the source.
  pub sort-IsFrames :
      (len : ℕ)
      → any_bad (outside len) given ≡ false
      → IsFrames len (qsort.sort given) (map pos_part (qsort.sort given))
  sort-IsFrames len h =
      let none_bad =
        count-any_bad (outside len) (qsort.sort given)
          (qsort.same (outside len) given ∙ any_bad-count (outside len) given h) in
      let same = map-pos_part len (qsort.sort given) none_bad in
      record {
        same = same;
        sorted = ordered-IsSorted (map pos_part (qsort.sort given)) (
            subst (IsOrdered compare_ints) same (
              qsort.ordered (λ _. true) given compare_ints-IsConsistent
                (compare_ints-IsAll given)));
        inside = inside-All len (qsort.sort given) none_bad;
      }

  -- Counting among the sorted numbers is counting among the given ones.
  pub below-sort :
      (f len : ℕ) (ys : List ℕ)
      → IsFrames len (qsort.sort given) ys
      → below f ys ≡ count_if (λ x. ltb_ℤ x (pos f)) given
  below-sort f len ys frames =
      sym (below-map f ys)
      ∙ ap (count_if (λ x. ltb_ℤ x (pos f))) (sym frames.same)
      ∙ qsort.same (λ x. ltb_ℤ x (pos f)) given

  pub up_to-sort :
      (f len : ℕ) (ys : List ℕ)
      → IsFrames len (qsort.sort given) ys
      → up_to f ys ≡ count_if (λ x. leb_ℤ x (pos f)) given
  up_to-sort f len ys frames =
      sym (up_to-map f ys)
      ∙ ap (count_if (λ x. leb_ℤ x (pos f))) (sym frames.same)
      ∙ qsort.same (λ x. leb_ℤ x (pos f)) given

  pub length-frames :
      (len : ℕ) (ys : List ℕ) → IsFrames len (qsort.sort given) ys → length ys ≡ length given
  length-frames len ys frames = sym (length-map pos ys) ∙ ap length (sym frames.same) ∙ length-sort
