-- ===== src/Core/Pool/Disjoint.antt =====
-- What the pool promises to the program that uses it.
use native.Mathlib.Decide.{dec_lt}
use native.Mathlib.Nat.{mul-le-mul_right}
use cat_syn.Prelude.{
  ℕ, zero, suc, ◌+◌, ◌*◌, ◌/◌, ◌≤◌, ◌<◌, ◌≡◌, ◌≢◌, ◌∙◌, sym, ap, refl, some, List, [], ◌∷◌, arith,
  inl, inr, ◌⊎◌, get_elem?,
}
use cat_syn.Core.Pool.{class_to_size, class_of, alloc_size, base, bin, num_size_classes, empty}
use cat_syn.Core.Pool.Blocks.{Event, Client, serve_all, count, IsCut, class_to_size-dvd}
use cat_syn.Core.Pool.Invariant.{next_block}
use cat_syn.Core.Pool.Served.{count_pos, empty-IsPool, serve_all-IsPool}

count_two :
    (xs : List ℕ) (i j p : ℕ)
    → i ≢ j
    → get_elem? xs i ≡ some p
    → get_elem? xs j ≡ some p
    → 2 ≤ count p xs
count_two [] i j p ne a b = cc
count_two (x ∷ xs) zero zero p ne a b = absurd (ne refl)
count_two (x ∷ xs) zero (suc j) p ne a b = ground (arith, count_pos xs j p)
count_two (x ∷ xs) (suc i) zero p ne a b = ground (arith, count_pos xs i p)
count_two (x ∷ xs) (suc i) (suc j) p ne a b =
    omega (arith, count_two xs i j p (λ e. ne (ap suc e)) a b)

before : (k j s : ℕ) → k < j → k * s + s ≤ j * s
before k j s lt = let p : k + 1 ≤ j = omega arith in omega (arith, mul-le-mul_right s p)

-- Blocks by class and number, in two classes and in one.
classes_apart :
    (c d k j r t : ℕ)
    → c < d
    → k * r + r ≤ bin
    → base + bin * c + k * r + r ≤ base + bin * d + j * t
classes_apart c d k j r t lt fits = omega arith

numbers_apart :
    (start k j r : ℕ)
    → start + k * r ≢ start + j * r
    → (start + k * r + r ≤ start + j * r) ⊎ (start + j * r + r ≤ start + k * r)
numbers_apart start k j r ne = elim (dec_lt k j) [
  | yes lt ↦ inl (omega (arith, before k j r lt))
  | no ge ↦ elim (dec_lt j k) [
    | yes gt ↦ inr (omega (arith, before j k r gt))
    | no le ↦ let e : k ≡ j = omega arith in absurd (ne (ap (λ n. start + n * r) e))
  ]
]

places_apart :
    (c d k j : ℕ)
    → c < num_size_classes
    → d < num_size_classes
    → k * class_to_size c < bin
    → j * class_to_size d < bin
    → base + bin * c + k * class_to_size c ≢ base + bin * d + j * class_to_size d
    → (base + bin * c + k * class_to_size c + class_to_size c
        ≤ base + bin * d + j * class_to_size d)
      ⊎ (base + bin * d + j * class_to_size d + class_to_size d
          ≤ base + bin * c + k * class_to_size c)
places_apart c d k j c_small d_small k_in j_in ne =
    let p =
      next_block k (class_to_size c) (bin / class_to_size c) bin k_in
        (class_to_size-dvd c c_small) in
    let q =
      next_block j (class_to_size d) (bin / class_to_size d) bin j_in
        (class_to_size-dvd d d_small) in
    elim (dec_lt c d) [
      | yes lt ↦ inl (classes_apart c d k j _ _ lt (omega arith))
      | no ge ↦ elim (dec_lt d c) [
        | yes gt ↦ inr (classes_apart d c j k _ _ gt (omega arith))
        | no le ↦
            let e : d ≡ c = omega arith in
            rw e (numbers_apart (base + bin * c) k j (class_to_size c) (rw e at ne))
      ]
    ]

cut_disjoint :
    (cur : ℕ → ℕ) (p q : ℕ)
    → IsCut cur p
    → IsCut cur q
    → p ≢ q
    → (p + class_to_size (class_of p) ≤ q) ⊎ (q + class_to_size (class_of q) ≤ p)
cut_disjoint cur p q a b ne =
    elim (places_apart (class_of p) (class_of q) a.number b.number a.class b.class a.within b.within
      (λ e. ne (a.place ∙ e ∙ sym b.place))) [
        | inl h ↦ inl (omega (arith, a.place, b.place))
        | inr h ↦ inr (omega (arith, a.place, b.place))
      ]

-- Two blocks that the program holds have no byte in common, whatever it asked for and gave back before,
-- in whatever order, as long as no check of the pool failed.
pub live_disjoint :
    (es : List Event) (s : Client) (i j p q : ℕ)
    → serve_all (record { pool = empty; live = [] }) es ≡ some s
    → get_elem? s.live i ≡ some p
    → get_elem? s.live j ≡ some q
    → i ≢ j
    → (p + alloc_size p ≤ q) ⊎ (q + alloc_size q ≤ p)
unfolding alloc_size
live_disjoint es s i j p q done at_i at_j ne =
    let inv = serve_all-IsPool es empty-IsPool done in
    cut_disjoint s.pool.cur p q (inv.live_cut p (count_pos s.live i p at_i))
      (inv.live_cut q (count_pos s.live j q at_j))
      (λ e.
        let twice = count_two s.live i j p ne at_i (rw (← e) at at_j) in omega (arith, inv.once p))
