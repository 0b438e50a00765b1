-- ===== src/Core/Table/Laws.antt =====
-- What the table's loops count and find, what a write changes, and when a copy can be made.
use cat_syn.Prelude.{
  ℕ, zero, suc, ◌+◌, ◌≤◌, ◌<◌, ◌≡◌, ◌∙◌, ap, not, ◌&&◌, ◌≢◌, ◌⊎◌, inl, inr, refl, Bool, true, false,
  Option, none, some, List, [], ◌∷◌, String, length, ◌==◌, if◌then◌else◌, count_if, arith,
  Bool-cases,
}
use cat_syn.Core.Table.{
  Slot, npos, has_value, get, set_at, set, seek, next, count_refs, size, clone,
}

-- How many slots from number `skip` on have an object.
count_from : {A : Type 0} → List (Slot A) → ℕ → ℕ
count_from [] skip = 0
count_from (s ∷ t) (suc skip) = count_from t skip
count_from (s ∷ t) zero = (if has_value s then 1 else 0) + count_from t zero

seek-count_from :
    {A : Type 0} (t : List (Slot A)) (skip i : ℕ)
    → i + length t < npos
    → ((seek t skip i ≡ npos) × (count_from t skip ≡ 0))
      ⊎ ((j : ℕ) × (seek t skip i ≡ i + j)
          × (skip ≤ j)
          × (j < length t)
          × (count_from t skip ≡ suc (count_from t (suc j))))
unfolding seek count_from
seek-count_from [] skip i h = inl (refl, refl)
seek-count_from (s ∷ t) (suc skip) i h = elim (seek-count_from t skip (i + 1) (omega arith)) [
  | inl none_left ↦ inl none_left
  | inr (j, e, le, lt, count) ↦ inr (suc j, e ∙ omega arith, omega arith, omega arith, count)
]
seek-count_from (s ∷ t) zero i h = elim (Bool-cases (has_value s)) [
  | inl e ↦ inr (0, rw e (omega arith), omega arith, omega arith, rw e (omega arith))
  | inr e ↦ elim (seek-count_from t zero (i + 1) (omega arith)) [
    | inl (a, b) ↦ inl (rw e a, rw e (omega (arith, b)))
    | inr (j, e', le, lt, count) ↦
        inr (suc j, rw e (e' ∙ omega arith), omega arith, omega arith, rw e (omega (arith, count)))
  ]
]

count_refs-count_from :
    {A : Type 0} (fuel skip : ℕ) (t : List (Slot A))
    → length t < npos
    → skip ≤ length t
    → length t < fuel + skip
    → count_refs fuel t (seek t skip 0) ≡ some (count_from t skip)
unfolding count_refs next
count_refs-count_from zero skip t small le enough = absurd (omega arith)
count_refs-count_from (suc fuel) skip t small le enough =
    elim (seek-count_from t skip 0 (omega arith)) [
      | inl (e, count) ↦ rw (e, count) refl
      | inr (j, e, from, lt, count) ↦
          ground (arith, count_refs-count_from fuel (suc j) t small (omega arith) (omega arith))
    ]

count_from-zero : {A : Type 0} (t : List (Slot A)) → count_from t 0 ≡ count_if has_value t
unfolding count_from
count_from-zero [] = refl
count_from-zero (s ∷ t) = omega (arith, count_from-zero t)

-- The loop of `size` ends for every table that has fewer slots than `npos`, and counts the slots that
-- hold an object.
pub size-count_if :
    {A : Type 0} (t : List (Slot A)) → length t < npos → size t ≡ some (count_if has_value t)
unfolding size next
size-count_if t small =
    count_refs-count_from (suc (length t)) 0 t small (omega arith) (omega arith)
    ∙ ap some (count_from-zero t)

get-set_at :
    {A : Type 0} (t : List (Slot A)) (i j : ℕ) (v : Option A) (k : Option String)
    → get (set_at t i v k) j ≡ (if i == j then v else get t j)
unfolding get set_at
get-set_at [] zero zero v k = refl
get-set_at [] zero (suc j) v k = ground arith
get-set_at [] (suc i) zero v k = ground arith
get-set_at [] (suc i) (suc j) v k = ground (arith, get-set_at [] i j v k)
get-set_at (s ∷ t) zero zero v k = refl
get-set_at (s ∷ t) zero (suc j) v k = ground arith
get-set_at (s ∷ t) (suc i) zero v k = ground arith
get-set_at (s ∷ t) (suc i) (suc j) v k = ground (arith, get-set_at t i j v k)

-- What a write to a slot changes: that slot has the object, and the others keep theirs.
pub get-set :
    {A : Type 0} (t : List (Slot A)) (i j : ℕ) (v : Option A) (k : Option String)
    → i ≢ npos
    → get (set t i v k) j ≡ (if i == j then v else get t j)
unfolding set
get-set t i j v k h = ground (arith, get-set_at t i j v k)

-- The slots that a copy keeps.
abbrev pub kept : {A : Type 0} → List (Slot A) → List (Slot A)
kept [] = []
kept (s ∷ t) = if has_value s then s ∷ kept t else kept t

abbrev pub named : {A : Type 0} → Slot A → Bool
named s = elim s.key [ none ↦ false | some k ↦ true ]

-- A copy can be made exactly if every object has a key, and then it has the objects with their keys,
-- in order, without the empty slots.
pub clone_lem :
    {A : Type 0} (t : List (Slot A))
    → clone t
      ≡ (if count_if (λ s. has_value s && not (named s)) t == 0 then some (kept t) else none)
unfolding clone
clone_lem [] = refl
clone_lem (s ∷ t) = ground (arith, clone_lem t)
