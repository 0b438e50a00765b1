-- ===== src/Core/Table.antt =====
-- The table of CatSyn/src/table.cpp: a vector of slots, each with a key and an object that may be
-- absent. `A` is the type of the objects. A slot's number is a `size_t`, and `npos` is the greatest.
pub mod Laws
pub mod Maps
mod Tests
use cat_syn.Prelude.{
  ℕ, zero, suc, ◌+◌, ◌-◌, ◌%◌, Bool, true, false, Option, none, some, List, [], ◌∷◌, ◌++◌, String,
  length, get_elem?, ltb, leb, ◌==◌, if◌then◌else◌,
}
use text.Mathlib.Text.{◌==◌ as str_eq}

pub record Slot (A : Type 0) : Type 0 where
  pub key : Option String
  pub value : Option A

abbrev pub npos : ℕ
npos = 18446744073709551615

abbrev pub has_value : {A : Type 0} → Slot A → Bool
has_value s = elim s.value [ none ↦ false | some a ↦ true ]

abbrev pub blank : {A : Type 0} → Slot A
blank = record { key = none; value = none }

-- `get`: the object; `key_of` is what it writes through `key_out`, which beyond the end is nothing.
unfoldable pub get : {A : Type 0} → List (Slot A) → ℕ → Option A
get t ref = elim (get_elem? t ref) [ none ↦ none | some s ↦ s.value ]

unfoldable pub key_of : {A : Type 0} → List (Slot A) → ℕ → Option String
key_of t ref = elim (get_elem? t ref) [ none ↦ none | some s ↦ s.key ]

-- The key of a slot that is written: a null key leaves it, and an equal one too.
abbrev pub rekey : Option String → Option String → Option String
rekey old none = old
rekey none (some k) = some k
rekey (some o) (some k) = if str_eq o k then some o else some k

abbrev pub write_slot : {A : Type 0} → Slot A → Option A → Option String → Slot A
write_slot s v k = record { key = rekey s.key k; value = v }

-- `vec.resize(ref + 1)` where that is longer, and the write to `vec[ref]`.
unfoldable pub set_at : {A : Type 0} → List (Slot A) → ℕ → Option A → Option String → List (Slot A)
set_at [] zero v k = write_slot blank v k ∷ []
set_at [] (suc i) v k = blank ∷ set_at [] i v k
set_at (s ∷ t) zero v k = write_slot s v k ∷ t
set_at (s ∷ t) (suc i) v k = s ∷ set_at t i v k

unfoldable pub set : {A : Type 0} → List (Slot A) → ℕ → Option A → Option String → List (Slot A)
unfolding set_at
set t ref v k = set_at t (if ref == npos then length t else ref) v k

-- The loop of `next`: it skips so many slots, and i is the number of the first that is left.
unfoldable pub seek : {A : Type 0} → List (Slot A) → ℕ → ℕ → ℕ
seek [] skip i = npos
seek (s ∷ t) (suc skip) i = seek t skip (i + 1)
seek (s ∷ t) zero i = let later = seek t zero (i + 1) in if has_value s then i else later

unfoldable pub next : {A : Type 0} → List (Slot A) → ℕ → ℕ
unfolding seek
next t ref = seek t ((ref + 1) % 18446744073709551616) 0

-- The loop of `size`, a round for each slot that `next` finds, with `ref` the slot to count.
unfoldable pub count_refs : {A : Type 0} → ℕ → List (Slot A) → ℕ → Option ℕ
count_refs zero t ref = none
count_refs (suc fuel) t ref = elim (ref == npos) [
  | true ↦ some 0
  | false ↦ elim (count_refs fuel t (next t ref)) [ none ↦ none | some n ↦ some (suc n) ]
]

-- `size`; one round more than there are slots is enough.
unfoldable pub size : {A : Type 0} → List (Slot A) → Option ℕ
unfolding count_refs
size t = count_refs (suc (length t)) t (next t npos)

-- The loop of `prev`, down from slot i; `none` is a read beyond the end of the vector.
unfoldable pub seek_back : {A : Type 0} → List (Slot A) → ℕ → Option ℕ
seek_back t zero = some npos
seek_back t (suc i) = elim (get_elem? t i) [
  | none ↦ none
  | some s ↦ elim s.value [ none ↦ seek_back t i | some a ↦ some i ]
]

-- `prev`; a `ref` of 2 ^ 63 or more is negative there.
unfoldable pub prev : {A : Type 0} → List (Slot A) → ℕ → Option ℕ
unfolding seek_back
prev t ref = elim (ltb ref 9223372036854775808) [ true ↦ seek_back t ref | false ↦ some npos ]

-- `vec[ref] = {}`, within the vector.
unfoldable pub clear_at : {A : Type 0} → List (Slot A) → ℕ → List (Slot A)
clear_at [] i = []
clear_at (s ∷ t) zero = blank ∷ t
clear_at (s ∷ t) (suc i) = s ∷ clear_at t i

unfoldable pub erase : {A : Type 0} → List (Slot A) → ℕ → List (Slot A) × ℕ
unfolding clear_at next
erase t ref = if leb (length t) ref then (t, npos) else (clear_at t ref, next (clear_at t ref) ref)

abbrev pub key_is : {A : Type 0} → String → Slot A → Bool
key_is k s = elim s.key [ none ↦ false | some o ↦ str_eq o k ]

-- The loop of `find`, i being the number of the first slot that is left.
unfoldable pub find_from : {A : Type 0} → String → List (Slot A) → ℕ → ℕ
find_from k [] i = npos
find_from k (s ∷ t) i = let later = find_from k t (i + 1) in if key_is k s then i else later

unfoldable pub find : {A : Type 0} → List (Slot A) → String → ℕ
unfolding find_from
find t k = find_from k t 0

-- The copy that `clone` makes: the slots with an object, in order. A key is copied as a string, and
-- `none` is the read through a null pointer where there is no key.
unfoldable pub clone : {A : Type 0} → List (Slot A) → Option (List (Slot A))
clone [] = some []
clone (s ∷ t) = elim s.value [
  | none ↦ clone t
  | some a ↦ elim s.key [
    | none ↦ none
    | some k ↦ elim (clone t) [ none ↦ none | some rest ↦ some (s ∷ rest) ]
  ]
]
