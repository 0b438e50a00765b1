-- ===== src/Reorder/SelectEvery/Frames.antt =====
-- How many frames SelectEvery puts out, and that they are in the source.
use native.Mathlib.Nat.{div-add-mod, mod-lt, mul_comm}
use native.Mathlib.Decide.{dec_lt}
use cat_syn.Prelude.{
  ap, ℕ, zero, suc, ◌+◌, ◌*◌, ◌/◌, ◌%◌, ◌≤◌, ◌<◌, ◌≡◌, ◌↔◌, refl, List, [], ◌∷◌, some, arith, map,
  get_elem?, All, length, ltb, if◌then◌else◌,
}
use cat_syn.Prelude.Int.{pos, int_add-pos, int_mul-pos, int_div, int_mod}
use cat_syn.Reorder.SelectEvery.{count_partial, select_every_frames}

-- How many of the offsets lie within the last, partial cycle of so many frames.
abbrev pub count_below : ℕ → List ℕ → ℕ
count_below left [] = 0
count_below left (o ∷ os) = (if ltb o left then 1 else 0) + count_below left os

-- How many frames of a source of `len` stand at offset o of a cycle.
abbrev pub quota : ℕ → ℕ → ℕ → ℕ
quota len c o = len / c + (if ltb o (len % c) then 1 else 0)

abbrev pub quotas : ℕ → ℕ → List ℕ → ℕ
quotas len c [] = 0
quotas len c (o ∷ os) = quota len c o + quotas len c os

mul-lt : (c j q : ℕ) → j < q → j * c + c ≤ c * q
mul-lt c j q h = grind arith

place_inside :
    (c q r o j : ℕ) → o < c → r < c → j * c + o < c * q + r → j < q + (if ltb o r then 1 else 0)
place_inside c q r o j ho hr inside = elim (dec_lt j q) [
  | yes p ↦ ground arith
  | no p ↦ elim (dec_lt q j) [
    | yes p' ↦ absurd (omega (arith, mul-lt c q j p', mul_comm c q))
    | no p' ↦
        let same : j ≡ q = omega arith in
        let within : o < r = omega (arith, mul_comm c q, ap (λ t. t * c) same) in ground arith
  ]
]

inside_place :
    (c q r o j : ℕ) → o < c → r < c → j < q + (if ltb o r then 1 else 0) → j * c + o < c * q + r
inside_place c q r o j ho hr below = elim (dec_lt j q) [
  | yes p ↦ omega (arith, mul-lt c j q p)
  | no p ↦
      let same : j ≡ q = ground arith in
      let within : o < r = ground arith in omega (arith, mul_comm c q, ap (λ t. t * c) same)
]

-- Frame `j * c + o` is in the source exactly if j is below the quota of o.
pub quota_iff : (len c o j : ℕ) → o < c → (j * c + o < len) ↔ (j < quota len c o)
quota_iff len c o j h = (
  λ inside.
      place_inside c (len / c) (len % c) o j h (mod-lt len (omega arith))
        (rw (div-add-mod len c) inside),
  λ below.
      rw (div-add-mod len c) at
        (inside_place c (len / c) (len % c) o j h (mod-lt len (omega arith)) below),
)

count_below-le-length : (left : ℕ) (os : List ℕ) → count_below left os ≤ length os
count_below-le-length left [] = omega arith
count_below-le-length left (o ∷ os) = ground (arith, count_below-le-length left os)

count_partial-pos :
    (left f : ℕ) (os : List ℕ)
    → f + count_below left os < 2147483648
    → count_partial (pos f) (pos left) (map pos os) ≡ pos (f + count_below left os)
unfolding count_partial
count_partial-pos left f [] h = ground arith
count_partial-pos left f (o ∷ os) h =
    ground (arith, int_add-pos f 1, count_partial-pos left (f + 1) os, count_partial-pos left f os)

quotas-eq :
    (len c : ℕ) (os : List ℕ) → quotas len c os ≡ len / c * length os + count_below (len % c) os
quotas-eq len c [] = omega arith
quotas-eq len c (o ∷ os) = ground (arith, quotas-eq len c os)

-- For a source of one or more frames, where the sum of the quotas of the offsets fits an int, the
-- number of output frames is that sum: the quota of an offset is how many frames of the source stand
-- at it, one in each whole cycle and one more where it lies within the last, partial cycle.
pub select_every_frames_lem :
    (len c : ℕ) (os : List ℕ)
    → 0 < len
    → quotas len c os < 2147483648
    → select_every_frames (pos len) (pos c) (pos (length os)) (map pos os) ≡ pos (quotas len c os)
unfolding select_every_frames int_div int_mod
select_every_frames_lem len c os hl fits = ground (
  arith,
  int_mul-pos (len / c) (length os),
  count_partial-pos (len % c) (len / c * length os) os,
  quotas-eq len c os,
)

abbrev pub IsSorted : List ℕ → Type 0
IsSorted [] = Unit
IsSorted (o ∷ os) = All (λ p. o ≤ p) os × IsSorted os

count_below-zero :
    (left o : ℕ) (os : List ℕ) → All (λ p. o ≤ p) os → left ≤ o → count_below left os ≡ 0
count_below-zero left o [] h le = refl
count_below-zero left o (p ∷ os) h le = ground (arith, count_below-zero left o os h.1 le)

-- Among sorted offsets the first ones are those within the partial cycle.
sorted_within :
    (left i : ℕ) (os : List ℕ) {o : ℕ}
    → IsSorted os
    → get_elem? os i ≡ some o
    → i < count_below left os
    → o < left
sorted_within left i [] s e h = cc
sorted_within left zero (p ∷ os) s e h = ground (arith, count_below-zero left p os s.0)
sorted_within left (suc i) (p ∷ os) {o} s e h = ground (arith, sorted_within left i os {o = o} s.1)

last_round : (n k q cnt : ℕ) → cnt ≤ k → n < q * k + cnt → q ≤ n / k → (n / k ≡ q) × (n % k < cnt)
last_round n k q cnt h below ge =
    let split = div-add-mod n k in
    let same : n / k ≡ q = elim (dec_lt q (n / k)) [
      | yes p ↦ absurd (omega (arith, split, mul-lt k q (n / k) p))
      | no p ↦ omega arith
    ] in
    (same, omega (arith, split, mul_comm q k, ap (λ t. k * t) same))

-- With sorted offsets every output frame comes from a frame that the source has.
pub selected_inside :
    (len c : ℕ) (os : List ℕ) (n : ℕ) {o : ℕ}
    → IsSorted os
    → o < c
    → get_elem? os (n % length os) ≡ some o
    → n < quotas len c os
    → n / length os * c + o < len
selected_inside len c os n {o} sorted small at below =
    (quota_iff len c o (n / length os) small).1 (elim (dec_lt (n / length os) (len / c)) [
      | yes p ↦ omega arith
      | no p ↦
          let (same, within) =
            last_round n (length os) (len / c) (count_below (len % c) os)
              (count_below-le-length (len % c) os) (omega (arith, quotas-eq len c os))
              (omega arith) in
          let inside = sorted_within (len % c) (n % length os) os sorted at within in ground arith
    ])
