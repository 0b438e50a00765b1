-- ===== src/Plugin/VsMap/Laws.antt =====
-- What propSetInt and propDeleteKey change of a map, and what they leave.
use cat_syn.Prelude.{◌≡◌, refl, true, false, some, [], ◌∷◌, String, Bool-cases, inl, inr}
use cat_syn.Prelude.Int.{ℤ}
use cat_syn.Plugin.Types.{Value, ints}
use cat_syn.Plugin.VsMap.{
  VsMap, find, put, prop_get_int, prop_set_int, prop_get_int_of_find, prop_delete_key,
}
use text.Mathlib.Text.{◌==◌ as str_eq}
use text.Mathlib.TextEquality.{eq_iff}

str_eq_self : (k : String) → str_eq k k ≡ true
str_eq_self k = (eq_iff k k).1 refl

find-put : (m : VsMap) (key : String) (v : Value) → find key (put key v m) ≡ some v
unfolding find put
find-put [] key v = rw (str_eq_self key) refl
find-put ((k, w) ∷ m) key v = elim (Bool-cases (str_eq k key)) [
  | inl e ↦ rw e (rw e refl)
  | inr e ↦ rw e (rw e (find-put m key v))
]

-- A key that is found under another name is not this one.
apart :
    (k key other : String) → str_eq other key ≡ false → str_eq k other ≡ true → str_eq k key ≡ false
apart k key other h e = let w : k ≡ other = (eq_iff k other).0 e in rw w h

find-put_other :
    (m : VsMap) (key other : String) (v : Value)
    → str_eq other key ≡ false
    → find key (put other v m) ≡ find key m
unfolding find put
find-put_other [] key other v h = rw h refl
find-put_other ((k, w) ∷ m) key other v h = elim (Bool-cases (str_eq k other)) [
  | inl e ↦ let a = apart k key other h e in rw e (rw a refl)
  | inr e ↦ let rest = find-put_other m key other v h in rw e (rw rest refl)
]

find-delete_other :
    (m : VsMap) (key other : String)
    → str_eq other key ≡ false
    → find key (prop_delete_key m other) ≡ find key m
unfolding find prop_delete_key
find-delete_other [] key other h = refl
find-delete_other ((k, w) ∷ m) key other h = elim (Bool-cases (str_eq k other)) [
  | inl e ↦ let a = apart k key other h e in rw e (rw a refl)
  | inr e ↦ let rest = find-delete_other m key other h in rw e (rw rest refl)
]

pub prop_get_int-set :
    (m : VsMap) (key : String) (v : ℤ) → prop_get_int (prop_set_int m key v) key 0 ≡ (v, 0)
unfolding prop_set_int
prop_get_int-set m key v = prop_get_int_of_find _ key 0 (find-put m key (ints (v ∷ []))) refl

pub prop_get_int-set_other :
    (m : VsMap) (key other : String) (v : ℤ)
    → str_eq other key ≡ false
    → prop_get_int (prop_set_int m other v) key 0 ≡ prop_get_int m key 0
unfolding prop_set_int prop_get_int
prop_get_int-set_other m key other v h = rw (find-put_other m key other (ints (v ∷ [])) h) refl

pub prop_get_int-delete_other :
    (m : VsMap) (key other : String)
    → str_eq other key ≡ false
    → prop_get_int (prop_delete_key m other) key 0 ≡ prop_get_int m key 0
unfolding prop_get_int
prop_get_int-delete_other m key other h = rw (find-delete_other m key other h) refl
