-- ===== src/Core/Pathway/Accepts.antt =====
-- What check_args accepts.
use text.Mathlib.Text.{◌==◌ as str_eq}
use text.Mathlib.TextEquality.{eq_iff}
use cat_syn.Prelude.{
  ℕ, ◌+◌, ◌≡◌, ◌↔◌, ◌∙◌, ap, sym, refl, Bool, true, false, Option, none, some, List, [], ◌∷◌, arith,
  Bool-cases, Option-cases, inl, inr,
}
use cat_syn.Core.Pathway.Args.{
  ArgType, int64, double, class, ArgSpec, integer, float, Value, Arg, accepted, check_elements,
  check_numeric, check_type, check_value, check_arg, check_args,
}

-- Every element before the first null one is of the type.
abbrev pub ElementsFit : (ℕ → ℕ → Bool) → ℕ → List (Option ℕ) → Type 0
ElementsFit type_check t [] = Unit
ElementsFit type_check t (none ∷ os) = Unit
ElementsFit type_check t (some o ∷ os) = (type_check o t ≡ true) × ElementsFit type_check t os

-- A value of a type: a number of the right kind, of eight bytes where it is not an array; an array is a
-- table of objects of the type.
abbrev pub HasType : (ℕ → ℕ → Bool) → Bool → ArgType → Value → Type 0
HasType type_check array int64 v =
    (size : ℕ) × (v.numeric ≡ some (integer, size)) × (array ≡ false → size ≡ 8)
HasType type_check array double v =
    (size : ℕ) × (v.numeric ≡ some (float, size)) × (array ≡ false → size ≡ 8)
HasType type_check true (class t) v =
    (os : List (Option ℕ)) × (v.elements ≡ some os) × ElementsFit type_check t os
HasType type_check false (class t) v = type_check v.object t ≡ true

abbrev pub ValueFits : (ℕ → ℕ → Bool) → ArgSpec → Option Value → Type 0
ValueFits type_check spec none = spec.required ≡ false
ValueFits type_check spec (some v) =
    (t : ArgType) → spec.type ≡ some t → HasType type_check spec.array t v

-- The arguments begin with one for each specification, under its name.
abbrev pub ArgsFit : (ℕ → ℕ → Bool) → List ArgSpec → List Arg → Type 0
ArgsFit type_check [] args = Unit
ArgsFit type_check (spec ∷ specs) [] = ⊥
ArgsFit type_check (spec ∷ specs) (arg ∷ args) =
    (arg.key ≡ some spec.name) × ValueFits type_check spec arg.value × ArgsFit type_check specs args

elements_fit :
    (type_check : ℕ → ℕ → Bool) (t : ℕ) (os : List (Option ℕ))
    → check_elements type_check t os ≡ true
    → ElementsFit type_check t os
unfolding check_elements
elements_fit type_check t [] h = tt
elements_fit type_check t (none ∷ os) h = tt
elements_fit type_check t (some o ∷ os) h =
    (ground arith, elements_fit type_check t os (ground arith))

check_type-HasType :
    (type_check : ℕ → ℕ → Bool) (array : Bool) (t : ArgType) (v : Value)
    → check_type type_check array t v ≡ true
    → HasType type_check array t v
unfolding check_type check_numeric
check_type-HasType type_check array int64 v h = elim (Option-cases v.numeric) [
  | inl e ↦ absurd (let z = rw (e, check_type) at h in cc)
  | inr ((integer, size), e) ↦
      (size, e, λ one. (let z = rw (e, check_type, one) at h in ground arith))
  | inr ((float, size), e) ↦ absurd (let z = rw (e, check_type) at h in cc)
]
check_type-HasType type_check array double v h = elim (Option-cases v.numeric) [
  | inl e ↦ absurd (let z = rw (e, check_type) at h in cc)
  | inr ((float, size), e) ↦
      (size, e, λ one. (let z = rw (e, check_type, one) at h in ground arith))
  | inr ((integer, size), e) ↦ absurd (let z = rw (e, check_type) at h in cc)
]
check_type-HasType type_check true (class t) v h = elim (Option-cases v.elements) [
  | inl e ↦ absurd (let z = rw (e, check_type) at h in cc)
  | inr (os, e) ↦ (os, e, elements_fit type_check t os (rw (e, check_type) at h))
]
check_type-HasType type_check false (class t) v h = h

fitting_elements :
    (type_check : ℕ → ℕ → Bool) (t : ℕ) (os : List (Option ℕ))
    → ElementsFit type_check t os
    → check_elements type_check t os ≡ true
unfolding check_elements
fitting_elements type_check t [] h = refl
fitting_elements type_check t (none ∷ os) h = refl
fitting_elements type_check t (some o ∷ os) h = rw h.0 (fitting_elements type_check t os h.1)

HasType-check_type :
    (type_check : ℕ → ℕ → Bool) (array : Bool) (t : ArgType) (v : Value)
    → HasType type_check array t v
    → check_type type_check array t v ≡ true
unfolding check_type check_numeric
HasType-check_type type_check true int64 v (size, e, one) = rw (e, check_type) refl
HasType-check_type type_check false int64 v (size, e, one) = rw (e, check_type, one refl) refl
HasType-check_type type_check true double v (size, e, one) = rw (e, check_type) refl
HasType-check_type type_check false double v (size, e, one) = rw (e, check_type, one refl) refl
HasType-check_type type_check true (class t) v (os, e, fits) =
    rw (e, check_type) (fitting_elements type_check t os fits)
HasType-check_type type_check false (class t) v h = h

value_fits :
    (type_check : ℕ → ℕ → Bool) (spec : ArgSpec) (value : Option Value)
    → check_value type_check spec value ≡ none
    → ValueFits type_check spec value
unfolding check_value
value_fits type_check spec none h = elim (Bool-cases spec.required) [
  | inl e ↦ absurd (let z = rw (e, check_value) at h in cc)
  | inr e ↦ e
]
value_fits type_check spec (some v) h = λ t e.
    elim (Bool-cases (check_type type_check spec.array t v)) [
      | inl c ↦ check_type-HasType type_check spec.array t v c
      | inr c ↦ absurd (let z = rw (e, check_value, c) at h in cc)
    ]

fitting_value :
    (type_check : ℕ → ℕ → Bool) (spec : ArgSpec) (value : Option Value)
    → ValueFits type_check spec value
    → check_value type_check spec value ≡ none
unfolding check_value
fitting_value type_check spec none h = rw h refl
fitting_value type_check spec (some v) h = elim (Option-cases spec.type) [
  | inl e ↦ rw (e, check_value) refl
  | inr (t, e) ↦
      let c = HasType-check_type type_check spec.array t v (h t e) in rw (e, check_value, c) refl
]

-- The checks of one argument, by its key, its value and the type asked for.
check_arg-fits :
    (type_check : ℕ → ℕ → Bool) (spec : ArgSpec) (ref : ℕ) (arg : Arg)
    → check_arg type_check spec ref arg ≡ none
    → (arg.key ≡ some spec.name) × ValueFits type_check spec arg.value
unfolding check_arg
check_arg-fits type_check spec ref arg h = elim (Option-cases arg.key) [
  | inl e ↦ absurd (let z = rw (e, check_arg) at h in cc)
  | inr (key, e) ↦ elim (Bool-cases (str_eq spec.name key)) [
    | inr other ↦ absurd (let z = rw (e, check_arg, other) at h in cc)
    | inl same ↦
        let w : spec.name ≡ key = (eq_iff spec.name key).0 same in
        let z = rw (e, check_arg, same) at h in
        (e ∙ ap some (sym w), value_fits type_check spec arg.value z)
  ]
]

fitting_arg :
    (type_check : ℕ → ℕ → Bool) (spec : ArgSpec) (ref : ℕ) (arg : Arg)
    → arg.key ≡ some spec.name
    → ValueFits type_check spec arg.value
    → check_arg type_check spec ref arg ≡ none
unfolding check_arg
fitting_arg type_check spec ref arg e h =
    let same : str_eq spec.name spec.name ≡ true = (eq_iff spec.name spec.name).1 refl in
    rw (e, check_arg, same) (fitting_value type_check spec arg.value h)

-- The arguments of a step are accepted where, and only where, they begin with one for each of the
-- function's specifications, in their order and under their names, which is there if it is required, and
-- if it is there has the type that is asked for.
pub check_args_lem :
    (type_check : ℕ → ℕ → Bool) (specs : List ArgSpec) (ref : ℕ) (args : List Arg)
    → (check_args type_check specs ref args ≡ accepted) ↔ ArgsFit type_check specs args
unfolding check_args
check_args_lem type_check [] ref args = (λ h. tt, λ h. refl)
check_args_lem type_check (spec ∷ specs) ref [] = (λ h. cc, λ h. absurd h)
check_args_lem type_check (spec ∷ specs) ref (arg ∷ args) =
    let (fits, fitting) = check_args_lem type_check specs (ref + 1) args in
    (
      λ h. elim (Option-cases (check_arg type_check spec ref arg)) [
        | inl e ↦
            let (key, value) = check_arg-fits type_check spec ref arg e in
            (key, value, fits (rw (e, check_args) at h))
        | inr (error, e) ↦ absurd (let z = rw (e, check_args) at h in cc)
      ],
      λ h. rw (fitting_arg type_check spec ref arg h.0 h.1, check_args) (fitting h.2),
    )
