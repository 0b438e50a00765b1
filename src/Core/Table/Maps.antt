-- ===== src/Core/Table/Maps.antt =====
-- The maps of Metalloporphyrin/src/map.cpp are tables that are read and written at the slot that
-- `find` gives. Here the table does what the model of the maps, Plugin/VsMap, says.
use cat_syn.Prelude.{
  ℕ, zero, suc, ◌+◌, ◌≤◌, ◌<◌, ◌≡◌, ◌⊎◌, inl, inr, ◌∙◌, refl, none, some, List, [], ◌∷◌, String,
  length, arith, Bool-cases,
}
use text.Mathlib.Text.{◌==◌ as str_eq}
use text.Mathlib.TextEquality.{eq_iff}
use cat_syn.Plugin.Types.{Value}
use cat_syn.Plugin.VsMap.{VsMap, put}
use cat_syn.Plugin.VsMap
use cat_syn.Core.Table.{Slot, npos, get, set, set_at, find, find_from}

-- The table of a map: each of its names, with its value, in a slot of its own.
abbrev pub table_of : VsMap → List (Slot Value)
table_of [] = []
table_of ((k, v) ∷ m) = record { key = some k; value = some v } ∷ table_of m

pub length-table_of : (m : VsMap) → length (table_of m) ≡ length m
length-table_of [] = refl
length-table_of ((k, v) ∷ m) = omega (arith, length-table_of m)

-- Where the loop of `find` stops: at the slot that the map's value is in, or nowhere.
found_at :
    (k : String) (v : Value) (m : VsMap) (i : ℕ)
    → i + length m < npos
    → ((j : ℕ) × (find_from k (table_of m) i ≡ i + j)
        × (j < length m)
        × (get (table_of m) j ≡ VsMap.find k m)
        × (set_at (table_of m) j (some v) (some k) ≡ table_of (put k v m)))
      ⊎ ((find_from k (table_of m) i ≡ npos)
          × (VsMap.find k m ≡ none)
          × (set_at (table_of m) (length (table_of m)) (some v) (some k) ≡ table_of (put k v m)))
unfolding find_from get set_at VsMap.find put
found_at k v [] i h = inr (refl, refl, refl)
found_at k v ((o, w) ∷ m) i h = elim (Bool-cases (str_eq o k)) [
  | inl e ↦ inl (0, ground arith, omega arith, ground arith, ground (arith, (eq_iff o k).0 e))
  | inr e ↦ elim (found_at k v m (i + 1) (omega arith)) [
    | inl (j, at, lt, same, written) ↦
        inl (suc j, ground arith, omega arith, ground arith, ground arith)
    | inr (at, missing, written) ↦ inr (ground arith, ground arith, ground arith)
  ]
]

get_beyond : {A : Type 0} (t : List (Slot A)) (i : ℕ) → length t ≤ i → get t i ≡ none
unfolding get
get_beyond [] i h = refl
get_beyond (s ∷ t) zero h = absurd (omega arith)
get_beyond (s ∷ t) (suc i) h = ground (arith, get_beyond t i)

pub table_refines :
    (m : VsMap) (k : String) (v : Value)
    → length m < npos
    → (get (table_of m) (find (table_of m) k) ≡ VsMap.find k m)
      × (set (table_of m) (find (table_of m) k) (some v) (some k) ≡ table_of (put k v m))
unfolding find set
table_refines m k v small = elim (found_at k v m 0 (omega arith)) [
  | inl (j, at, lt, same, written) ↦
      let e : find_from k (table_of m) 0 ≡ j = at ∙ omega arith in
      (rw e same, ground (arith, length-table_of m))
  | inr (at, missing, written) ↦ (
    rw (at, missing) (get_beyond (table_of m) npos (omega (arith, length-table_of m))),
    rw at written,
  )
]

-- Writing values under names, one after the other, from the empty table.
abbrev pub put_all : List (String × Value) → VsMap → VsMap
put_all [] m = m
put_all ((k, v) ∷ rest) m = put_all rest (put k v m)

unfoldable pub set_all : List (String × Value) → List (Slot Value) → List (Slot Value)
set_all [] t = t
set_all ((k, v) ∷ rest) t = set_all rest (set t (find t k) (some v) (some k))

length-put : (k : String) (v : Value) (m : VsMap) → length (put k v m) ≤ suc (length m)
unfolding put
length-put k v [] = omega arith
length-put k v ((o, w) ∷ m) = ground (arith, length-put k v m)

-- A table that is written name by name, fewer than `npos` times with what it had, is the table of the
-- map that the same writes make.
pub set_all-put_all :
    (writes : List (String × Value)) (m : VsMap)
    → length m + length writes < npos
    → set_all writes (table_of m) ≡ table_of (put_all writes m)
unfolding set_all
set_all-put_all [] m small = refl
set_all-put_all ((k, v) ∷ rest) m small =
    rw ((table_refines m k v (omega arith)).1)
      (set_all-put_all rest (put k v m) (omega (arith, length-put k v m)))
