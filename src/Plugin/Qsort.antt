-- ===== src/Plugin/Qsort.antt =====
-- The `qsort` of the C library, which the filters call and do not implement. It keeps each item as
-- often as it was there; where the comparison is consistent on the items, it orders them so that none
-- stands before one that compares less.
use cat_syn.Prelude.{◌≡◌, ◌⊎◌, Bool, true, List, [], ◌∷◌, All, count_if}
use cat_syn.Prelude.Int.{ℤ, pos, ◌≤ℤ◌}

module _ {A : Type 0} (compare_items : A → A → ℤ) where
  abbrev pub IsOrdered : List A → Type 0
  IsOrdered [] = Unit
  IsOrdered (x ∷ xs) = All (λ y. compare_items x y ≤ℤ pos 0) xs × IsOrdered xs

  abbrev pub IsAll : (A → Bool) → List A → Type 0
  IsAll p xs = All (λ x. p x ≡ true) xs

  -- On the items that pass the test p, the comparison is total and transitive.
  pub record IsConsistent (p : A → Bool) : Type 0 where
    pub total :
        (x y : A)
        → p x ≡ true
        → p y ≡ true
        → (compare_items x y ≤ℤ pos 0) ⊎ (compare_items y x ≤ℤ pos 0)
    pub transitive :
        (x y z : A)
        → p x ≡ true
        → p y ≡ true
        → p z ≡ true
        → compare_items x y ≤ℤ pos 0
        → compare_items y z ≤ℤ pos 0
        → compare_items x z ≤ℤ pos 0

  pub record Qsort : Type 0 where
    pub sort : List A → List A
    pub ordered : (p : A → Bool) (xs : List A) → IsConsistent p → IsAll p xs → IsOrdered (sort xs)
    pub same : (p : A → Bool) (xs : List A) → count_if p (sort xs) ≡ count_if p xs
