-- ===== src/Core/Pathway/Args.antt =====
-- check_args of CatSyn/src/pathway.cpp: whether the arguments of a step are what the function says that
-- it takes. Whether an object is of a type is a parameter.
use text.Mathlib.Text.{◌==◌ as str_eq}
use cat_syn.Prelude.{
  ℕ, ◌+◌, Bool, true, false, ◌&&◌, ◌||◌, Option, none, some, List, [], ◌∷◌, String, ◌==◌,
  if◌then◌else◌,
}

-- `typeid(int64_t)`, `typeid(double)`, and the types of objects.
pub data ArgType : Type 0 where
  int64 double : ArgType
  class : ℕ → ArgType

pub record ArgSpec : Type 0 where
  pub name : String
  pub type : Option ArgType
  pub array : Bool
  pub required : Bool

pub data SampleType : Type 0 where
  integer float : SampleType

-- An object by its address, with what the casts to INumeric and ITable give: the sample type and the
-- size, and the elements.
pub record Value : Type 0 where
  pub object : ℕ
  pub numeric : Option (SampleType × ℕ)
  pub elements : Option (List (Option ℕ))

pub record Arg : Type 0 where
  pub key : Option String
  pub value : Option Value

pub data Error : Type 0 where
  missing_argument invalid_name : ℕ → Error
  missing_required invalid_type : String → Error

-- `undefined` is a read of a key that `get` has not written.
pub data Checked : Type 0 where
  accepted undefined : Checked
  thrown : Error → Checked

-- The elements up to the first that is null.
unfoldable pub check_elements : (ℕ → ℕ → Bool) → ℕ → List (Option ℕ) → Bool
check_elements type_check t [] = true
check_elements type_check t (none ∷ os) = true
check_elements type_check t (some o ∷ os) = type_check o t && check_elements type_check t os

unfoldable pub check_numeric : Bool → SampleType → SampleType → ℕ → Bool
check_numeric array integer integer size = array || size == 8
check_numeric array float float size = array || size == 8
check_numeric array wanted given size = false

unfoldable pub check_type : (ℕ → ℕ → Bool) → Bool → ArgType → Value → Bool
unfolding check_elements check_numeric
check_type type_check array int64 v = elim v.numeric [
  | none ↦ false
  | some (given, size) ↦ check_numeric array integer given size
]
check_type type_check array double v = elim v.numeric [
  | none ↦ false
  | some (given, size) ↦ check_numeric array float given size
]
check_type type_check true (class t) v = elim v.elements [
  | none ↦ false
  | some os ↦ check_elements type_check t os
]
check_type type_check false (class t) v = type_check v.object t

-- What is asked of a value under its name.
unfoldable pub check_value : (ℕ → ℕ → Bool) → ArgSpec → Option Value → Option Error
unfolding check_type
check_value type_check spec none = if spec.required then some (missing_required spec.name) else none
check_value type_check spec (some v) = elim spec.type as (λ _. Option Error) [
  | none ↦ none
  | some t ↦ if check_type type_check spec.array t v then none else some (invalid_type spec.name)
]

-- The body of the loop, at argument `ref`; `none` is `continue`.
unfoldable pub check_arg : (ℕ → ℕ → Bool) → ArgSpec → ℕ → Arg → Option Error
unfolding check_value
check_arg type_check spec ref arg = elim arg.key as (λ _. Option Error) [
  | none ↦ some (missing_argument ref)
  | some key ↦
      if str_eq spec.name key
      then check_value type_check spec arg.value
      else some (invalid_name ref)
]

unfoldable pub check_args : (ℕ → ℕ → Bool) → List ArgSpec → ℕ → List Arg → Checked
unfolding check_arg
check_args type_check [] ref args = accepted
check_args type_check (spec ∷ specs) ref [] = undefined
check_args type_check (spec ∷ specs) ref (arg ∷ args) = elim (check_arg type_check spec ref arg) [
  | some e ↦ thrown e
  | none ↦ check_args type_check specs (ref + 1) args
]
