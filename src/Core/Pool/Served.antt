-- ===== src/Core/Pool/Served.antt =====
-- What the program does with the pool keeps the invariant.
use mathlib.Core.Path.{fun_ext}
use native.Mathlib.Nat.{mul_comm}
use cat_syn.Prelude.{
  ℕ, zero, suc, ◌+◌, ◌-◌, ◌*◌, ◌%◌, ◌<◌, ◌≡◌, ap, subst, refl, Option, some, List, [], ◌∷◌, arith,
  ltb, ◌==◌, Bool-cases, Option-cases, List-cases, inl, inr, get_elem?,
}
use cat_syn.Core.Pool.{
  Pool, size_to_size_class, class_to_size, class_of, bin, num_size_classes, update, take_block,
  alloc, dealloc, empty, push_all, reset_below, low_memory,
}
use cat_syn.Core.Pool.Blocks.{
  Event, ask, give, low, Client, remove, serve, serve_all, count, IsPool,
}
use cat_syn.Core.Pool.Invariant.{
  class_to_size_bounds, size_to_size_class-class_to_size, reuse-IsPool, return-IsPool, fresh-IsPool,
}

push_all-append : (xs ys : List ℕ) → push_all (push_all xs ys) [] ≡ push_all ys xs
push_all-append [] ys = refl
push_all-append (x ∷ xs) ys = push_all-append xs (x ∷ ys)

reset_one :
    (stacks : ℕ → List ℕ) (c : ℕ) → update stacks c (push_all (push_all (stacks c) []) []) ≡ stacks
reset_one stacks c = fun_ext (λ d. elim (Bool-cases (c == d)) [
  | inl e ↦
      let w : c ≡ d = ground arith in ground (arith, push_all-append (stacks c) [], ap stacks w)
  | inr e ↦ ground arith
])

reset_below_lem : (n : ℕ) (p : Pool) → reset_below n p ≡ p
unfolding reset_below
reset_below_lem zero p = refl
reset_below_lem (suc n) p = rw (reset_below_lem n p, reset_one p.stacks n) refl

-- A call for low memory takes every free block out and puts it back: the pool is as it was.
pub low_memory_lem : (now before : ℕ) (p : Pool) → (low_memory now before p).1 ≡ p
unfolding low_memory
low_memory_lem now before p =
    elim (Bool-cases (ltb 8 ((now + 18446744073709551616 - before) % 18446744073709551616))) [
      | inl e ↦ rw e (reset_below_lem 16 p)
      | inr e ↦ rw e refl
    ]

same_result :
    (live : List ℕ) (p q : ℕ) (pool next : Pool)
    → ◌≡◌ {A = Option (ℕ × Pool)} (some (p, pool)) (some (q, next))
    → IsPool (record { pool = pool; live = p ∷ live })
    → IsPool (record { pool = next; live = q ∷ live })
same_result live p q pool next e inv =
    let a : p ≡ q = cc in let b : pool ≡ next = cc in rw (← a, ← b) inv

take_block-IsPool :
    (s : Client) (c p : ℕ) (pool : Pool)
    → c < num_size_classes
    → take_block s.pool c ≡ some (p, pool)
    → IsPool s
    → IsPool (record { pool = pool; live = p ∷ s.live })
unfolding take_block
take_block-IsPool s c p pool small e inv = elim (List-cases (s.pool.stacks c)) [
  | inl none_left ↦
      let small_offset = class_to_size_bounds c small in
      let room = inv.bounds c small in
      let no_wrap : (s.pool.cur c * class_to_size c) % 18446744073709551616
          ≡ s.pool.cur c * class_to_size c =
        omega arith in
      let e' = rw (none_left, take_block, no_wrap) at e in
      elim (Bool-cases (ltb (s.pool.cur c * class_to_size c) bin)) [
        | inl fits ↦
            same_result s.live _ p _ pool (rw fits at e')
              (fresh-IsPool s c small (ground arith) inv)
        | inr full ↦ absurd (let z = rw full at e' in cc)
      ]
  | inr (x, rest, top) ↦
      same_result s.live _ p _ pool (rw (top, take_block) at e) (reuse-IsPool s c x rest top inv)
]

size_to_size_class-lt : (size c : ℕ) → size_to_size_class size ≡ some c → c < num_size_classes
unfolding size_to_size_class
size_to_size_class-lt size c e = ground arith

pub count_pos : (xs : List ℕ) (i p : ℕ) → get_elem? xs i ≡ some p → 0 < count p xs
count_pos [] i p e = cc
count_pos (x ∷ xs) zero p e = ground arith
count_pos (x ∷ xs) (suc i) p e = omega (arith, count_pos xs i p e)

-- What is given back goes to its class.
dealloc_lem :
    (s : Client) (i p : ℕ)
    → IsPool s
    → get_elem? s.live i ≡ some p
    → dealloc s.pool p
      ≡ some (record (s.pool) {
        stacks = update s.pool.stacks (class_of p) (p ∷ s.pool.stacks (class_of p));
      })
unfolding dealloc
dealloc_lem s i p inv at =
    let cut = inv.live_cut p (count_pos s.live i p at) in
    rw (size_to_size_class-class_to_size (class_of p) cut.class, dealloc) refl

serve-IsPool : (s : Client) (e : Event) {t : Client} → serve s e ≡ some t → IsPool s → IsPool t
unfolding serve alloc
serve-IsPool s (ask size) {t} done inv = elim (Option-cases (size_to_size_class size)) [
  | inl no_class ↦ absurd (let z = rw (no_class, alloc, serve) at done in cc)
  | inr (c, known) ↦ elim (Option-cases (take_block s.pool c)) [
    | inl full ↦ absurd (let z = rw (known, full, alloc, serve) at done in cc)
    | inr ((p, pool), taken) ↦
        let z = rw (known, taken, alloc, serve) at done in
        let w : record { pool = pool; live = p ∷ s.live } ≡ t = cc in
        subst IsPool (w)
          (take_block-IsPool s c p pool (size_to_size_class-lt size c known) taken inv)
  ]
]
serve-IsPool s (give i) {t} done inv = elim (Option-cases (get_elem? s.live i)) [
  | inl out ↦ let z = rw (out, serve) at done in let w : s ≡ t = cc in subst IsPool (w) inv
  | inr (p, at) ↦
      let z = rw (at, dealloc_lem s i p inv at, serve) at done in
      let w : record {
        pool = record (s.pool) {
          stacks = update s.pool.stacks (class_of p) (p ∷ s.pool.stacks (class_of p));
        };
        live = remove s.live i;
      }
          ≡ t =
        cc in
      subst IsPool (w) (return-IsPool s i p at inv)
]
serve-IsPool s (low now before) {t} done inv =
    let z = rw (low_memory_lem now before s.pool, serve) at done in
    let w : s ≡ t = cc in subst IsPool (w) inv

-- Whatever the program asks for and gives back, every block that it holds or that a stack holds is
-- a block cut off the region of its class, and is held once.
pub serve_all-IsPool :
    (es : List Event) {s t : Client} → IsPool s → serve_all s es ≡ some t → IsPool t
unfolding serve_all
serve_all-IsPool [] {s} {t} inv done = let w : s ≡ t = cc in subst IsPool (w) inv
serve_all-IsPool (e ∷ es) {s} {t} inv done = elim (Option-cases (serve s e)) [
  | inl stop ↦ absurd (let z = rw (stop, serve_all) at done in cc)
  | inr (u, went) ↦
      serve_all-IsPool es {s = u} {t = t} (serve-IsPool s e {t = u} went inv)
        (rw (went, serve_all) at done)
]

pub empty-IsPool : IsPool (record { pool = empty; live = [] })
empty-IsPool = record {
  once = λ p. omega arith;
  live_cut = λ p h. absurd (omega arith);
  stack_cut = λ c p h. absurd (omega arith);
  bounds = λ c h. omega (arith, mul_comm 0 (class_to_size c));
}
