-- ===== src/Core/Pool/Invariant.antt =====
-- Every block of the pool is cut once, and is given out to one holder at a time.
use native.Mathlib.Decide.{dec_le}
use native.Mathlib.Nat.{mul_comm, mul-le-mul_right, le-mul_of_pos_right}
use cat_syn.Prelude.{
  ℕ, zero, suc, ◌+◌, ◌*◌, ◌/◌, ◌≤◌, ◌<◌, ◌≡◌, ◌∙◌, sym, ap, refl, some, List, ◌∷◌, arith, ◌==◌,
  if◌then◌else◌, Bool-cases, inl, inr, get_elem?,
}
use cat_syn.Core.Pool.{
  size_to_size_class, class_to_size, class_of, base, bin, num_size_classes, update,
}
use cat_syn.Core.Pool.Classes.{size_to_size_class_lem}
use cat_syn.Core.Pool.Blocks.{
  Client, remove, count, IsCut, IsPool, class_to_size-dvd, class_of_block, count-remove,
}

pub next_block : (k s m b : ℕ) → k * s < b → s * m ≡ b → (k + 1) * s ≤ b
next_block k s m b h e = elim (dec_le (k + 1) m) [
  | yes p ↦ omega (arith, mul-le-mul_right s p, mul_comm s m)
  | no p ↦ let q : m ≤ k = omega arith in absurd (omega (arith, mul-le-mul_right s q, mul_comm s m))
]

factor_pos : (s m : ℕ) → 0 < s * m → (0 < s) × (s ≤ s * m)
factor_pos zero m h = absurd (omega (arith, mul_comm 0 m))
factor_pos (suc s) zero h = absurd (omega arith)
factor_pos (suc s) (suc m) h = (omega arith, le-mul_of_pos_right (suc s) (omega arith))

pub class_to_size_bounds :
    (c : ℕ) → c < num_size_classes → (0 < class_to_size c) × (class_to_size c ≤ bin)
class_to_size_bounds c small =
    let e = class_to_size-dvd c small in
    let (a, b) = factor_pos (class_to_size c) (bin / class_to_size c) (omega arith) in
    (a, omega arith)

-- A block goes back to the stack it came from.
pub size_to_size_class-class_to_size :
    (c : ℕ) → c < num_size_classes → size_to_size_class (class_to_size c) ≡ some c
size_to_size_class-class_to_size c small =
    let (a, b) = class_to_size_bounds c small in
    size_to_size_class_lem (class_to_size c) c small (omega arith) (omega arith) (omega arith)

-- A block taken from a stack.
pub reuse-IsPool :
    (s : Client) (c p : ℕ) (rest : List ℕ)
    → s.pool.stacks c ≡ p ∷ rest
    → IsPool s
    → IsPool (record {
      pool = record (s.pool) { stacks = update s.pool.stacks c rest };
      live = p ∷ s.live;
    })
reuse-IsPool s c p rest e inv =
    let top : 0 < count p (s.pool.stacks c) = rw e (ground arith) in
    let (here, cut) = inv.stack_cut c p top in
    let split = λ (q : ℕ).
      (let g : count q (s.pool.stacks c) ≡ (if p == q then 1 else 0) + count q rest = rw e refl in
        g) in
    record {
      once = λ q. ground (arith, inv.once q, split q);
      live_cut = λ q h. elim (Bool-cases (p == q)) [
        | inl same ↦ let w : p ≡ q = ground arith in rw (← w) cut
        | inr other ↦ inv.live_cut q (ground arith)
      ];
      stack_cut = λ d q h. inv.stack_cut d q (ground (arith, split q));
      bounds = inv.bounds;
    }

-- A block given back.
pub return-IsPool :
    (s : Client) (i p : ℕ)
    → get_elem? s.live i ≡ some p
    → IsPool s
    → IsPool (record {
      pool = record (s.pool) {
        stacks = update s.pool.stacks (class_of p) (p ∷ s.pool.stacks (class_of p));
      };
      live = remove s.live i;
    })
return-IsPool s i p e inv =
    let split = λ (q : ℕ). count-remove s.live i p q e in
    record {
      once = λ q. ground (arith, inv.once q, split q);
      live_cut = λ q h. inv.live_cut q (ground (arith, split q));
      stack_cut = λ d q h. elim (Bool-cases (class_of p == d)) [
        | inl same ↦ elim (Bool-cases (p == q)) [
          | inl w ↦
              let pq : p ≡ q = ground arith in
              let cut = inv.live_cut q (ground (arith, split q)) in (ground arith, cut)
          | inr w ↦ inv.stack_cut d q (ground arith)
        ]
        | inr other ↦ inv.stack_cut d q (ground arith)
      ];
      bounds = inv.bounds;
    }

-- Two blocks of a class with the same place have the same number.
pub number_eq : (k j s : ℕ) → 0 < s → k < j → k * s ≡ j * s → ⊥
number_eq k j s pos lt e = let p : k + 1 ≤ j = omega arith in omega (arith, mul-le-mul_right s p)

IsCut-weaken :
    (cur next : ℕ → ℕ) (p : ℕ) → (cur (class_of p) ≤ next (class_of p)) → IsCut cur p → IsCut next p
IsCut-weaken cur next p le k = record {
  number = k.number;
  class = k.class;
  cut = omega (arith, k.cut);
  within = k.within;
  place = k.place;
}

-- A block cut off the region.
pub fresh-IsPool :
    (s : Client) (c : ℕ)
    → c < num_size_classes
    → s.pool.cur c * class_to_size c < bin
    → IsPool s
    → let p = base + bin * c + s.pool.cur c * class_to_size c in
      IsPool (record {
        pool = record (s.pool) { cur = update s.pool.cur c (s.pool.cur c + 1) };
        live = p ∷ s.live;
      })
fresh-IsPool s c small fits inv =
    let p = base + bin * c + s.pool.cur c * class_to_size c in
    let own : class_of p ≡ c = class_of_block c (s.pool.cur c * class_to_size c) fits in
    let (pos, _) = class_to_size_bounds c small in
    let next = update s.pool.cur c (s.pool.cur c + 1) in
    let grows =
      λ (q : ℕ). (let g : s.pool.cur (class_of q) ≤ next (class_of q) = ground arith in g) in
    let new : (q : ℕ) → p ≡ q → IsCut s.pool.cur q → ⊥ = λ q w k.
      let own_q : class_of q ≡ c = ap class_of (sym w) ∙ own in
      let e : q ≡ base + bin * c + k.number * class_to_size c = rw own_q at k.place in
      number_eq k.number (s.pool.cur c) (class_to_size c) pos (rw own_q at k.cut) (omega arith) in
    let no_live : (q : ℕ) → p ≡ q → count q s.live ≡ 0 = λ q w. elim (dec_le 1 (count q s.live)) [
      | yes h ↦ absurd (new q w (inv.live_cut q h))
      | no h ↦ omega arith
    ] in
    let no_stacked : (q : ℕ) → p ≡ q → count q (s.pool.stacks (class_of q)) ≡ 0 = λ q w.
      elim (dec_le 1 (count q (s.pool.stacks (class_of q)))) [
        | yes h ↦ absurd (new q w (inv.stack_cut (class_of q) q h).1)
        | no h ↦ omega arith
      ] in
    let cut : IsCut next p = record {
      number = s.pool.cur c;
      class = rw own small;
      cut = rw own (ground arith);
      within = rw own fits;
      place = rw own refl;
    } in
    record {
      once = λ q. elim (Bool-cases (p == q)) [
        | inl same ↦ let w : p ≡ q = ground arith in ground (arith, no_live q w, no_stacked q w)
        | inr other ↦ ground (arith, inv.once q)
      ];
      live_cut = λ q h. elim (Bool-cases (p == q)) [
        | inl same ↦ let w : p ≡ q = ground arith in rw (← w) cut
        | inr other ↦ IsCut-weaken s.pool.cur next q (grows q) (inv.live_cut q (ground arith))
      ];
      stack_cut = λ d q h.
          let (a, b) = inv.stack_cut d q h in (a, IsCut-weaken s.pool.cur next q (grows q) b);
      bounds = λ d h. elim (Bool-cases (c == d)) [
        | inl same ↦
            let w : c ≡ d = ground arith in
            rw (← w) (
              ground (
                arith,
                next_block (s.pool.cur c) (class_to_size c) (bin / class_to_size c) bin fits
                    (class_to_size-dvd c small),
              ))
        | inr other ↦ ground (arith, inv.bounds d h)
      ];
    }
