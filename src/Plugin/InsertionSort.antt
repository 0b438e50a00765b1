-- ===== src/Plugin/InsertionSort.antt =====
-- A sort that keeps the promises of `qsort` for every comparison, for the runs of the filters.
use cat_syn.Prelude.{
  ◌≡◌, refl, Bool, true, List, [], ◌∷◌, All, count_if, arith, if◌then◌else◌, Bool-cases, inl, inr,
}
use cat_syn.Prelude.Int.{ℤ, pos, leb_ℤ, ◌≤ℤ◌}
use cat_syn.Plugin.Qsort.{Qsort, IsOrdered, IsAll, IsConsistent}

unfoldable pub insert : {A : Type 0} → (A → A → ℤ) → A → List A → List A
insert cmp x [] = x ∷ []
insert cmp x (y ∷ ys) =
    let rest = insert cmp x ys in if leb_ℤ (cmp x y) (pos 0) then x ∷ y ∷ ys else y ∷ rest

unfoldable pub insertion_sort : {A : Type 0} → (A → A → ℤ) → List A → List A
unfolding insert
insertion_sort cmp [] = []
insertion_sort cmp (x ∷ xs) = insert cmp x (insertion_sort cmp xs)

module _ {A : Type 0} (cmp : A → A → ℤ) where
  abbrev IsLeast : A → List A → Type 0
  IsLeast x xs = All (λ y. cmp x y ≤ℤ pos 0) xs

  insert-IsLeast :
      (x z : A) (xs : List A) → IsLeast z xs → cmp z x ≤ℤ pos 0 → IsLeast z (insert cmp x xs)
  unfolding insert
  insert-IsLeast x z [] h le = (le, tt)
  insert-IsLeast x z (y ∷ ys) h le = elim (Bool-cases (leb_ℤ (cmp x y) (pos 0))) [
    | inl e ↦ rw e (le, h)
    | inr e ↦ rw e (h.0, insert-IsLeast x z ys h.1 le)
  ]

  count_if-insert :
      (p : A → Bool) (x : A) (xs : List A) → count_if p (insert cmp x xs) ≡ count_if p (x ∷ xs)
  unfolding insert
  count_if-insert p x [] = refl
  count_if-insert p x (y ∷ ys) = ground (arith, count_if-insert p x ys)

  pub count_if-insertion_sort :
      (p : A → Bool) (xs : List A) → count_if p (insertion_sort cmp xs) ≡ count_if p xs
  unfolding insertion_sort
  count_if-insertion_sort p [] = refl
  count_if-insertion_sort p (x ∷ xs) =
      ground (arith, count_if-insert p x (insertion_sort cmp xs), count_if-insertion_sort p xs)

  insert-IsAll :
      (p : A → Bool) (x : A) (xs : List A)
      → p x ≡ true
      → IsAll cmp p xs
      → IsAll cmp p (insert cmp x xs)
  unfolding insert
  insert-IsAll p x [] hx h = (hx, tt)
  insert-IsAll p x (y ∷ ys) hx h = elim (Bool-cases (leb_ℤ (cmp x y) (pos 0))) [
    | inl e ↦ rw e (hx, h)
    | inr e ↦ rw e (h.0, insert-IsAll p x ys hx h.1)
  ]

  insertion_sort-IsAll :
      (p : A → Bool) (xs : List A) → IsAll cmp p xs → IsAll cmp p (insertion_sort cmp xs)
  unfolding insertion_sort
  insertion_sort-IsAll p [] h = tt
  insertion_sort-IsAll p (x ∷ xs) h =
      insert-IsAll p x (insertion_sort cmp xs) h.0 (insertion_sort-IsAll p xs h.1)

  module _ (p : A → Bool) (consistent : IsConsistent cmp p) where
    IsLeast-transitive :
        (x y : A) (ys : List A)
        → p x ≡ true
        → p y ≡ true
        → IsAll cmp p ys
        → cmp x y ≤ℤ pos 0
        → IsLeast y ys
        → IsLeast x ys
    IsLeast-transitive x y [] hx hy h le least = tt
    IsLeast-transitive x y (z ∷ zs) hx hy h le least = (
      consistent.transitive x y z hx hy h.0 le least.0,
      IsLeast-transitive x y zs hx hy h.1 le least.1,
    )

    insert-IsOrdered :
        (x : A) (xs : List A)
        → p x ≡ true
        → IsAll cmp p xs
        → IsOrdered cmp xs
        → IsOrdered cmp (insert cmp x xs)
    unfolding insert
    insert-IsOrdered x [] hx all h = (tt, tt)
    insert-IsOrdered x (y ∷ ys) hx all h = elim (Bool-cases (leb_ℤ (cmp x y) (pos 0))) [
      | inl e ↦
          let le : cmp x y ≤ℤ pos 0 = ground arith in
          rw e ((le, IsLeast-transitive x y ys hx all.0 all.1 le h.0), h)
      | inr e ↦
          let le : cmp y x ≤ℤ pos 0 = elim (consistent.total x y hx all.0) [
            | inl wrong ↦ absurd (ground arith)
            | inr right ↦ right
          ] in
          rw e (insert-IsLeast x y ys h.0 le, insert-IsOrdered x ys hx all.1 h.1)
    ]

    IsOrdered-insertion_sort :
        (xs : List A) → IsAll cmp p xs → IsOrdered cmp (insertion_sort cmp xs)
    unfolding insertion_sort
    IsOrdered-insertion_sort [] all = tt
    IsOrdered-insertion_sort (x ∷ xs) all =
        insert-IsOrdered x (insertion_sort cmp xs) all.0 (insertion_sort-IsAll p xs all.1)
          (IsOrdered-insertion_sort xs all.1)

  pub insertion_sort-IsOrdered :
      (p : A → Bool) (xs : List A)
      → IsConsistent cmp p
      → IsAll cmp p xs
      → IsOrdered cmp (insertion_sort cmp xs)
  insertion_sort-IsOrdered p xs consistent all = IsOrdered-insertion_sort p consistent xs all

  abbrev pub by_insertion : Qsort cmp
  by_insertion = record {
    sort = insertion_sort cmp;
    ordered = insertion_sort-IsOrdered;
    same = count_if-insertion_sort;
  }
