-- ===== src/Core/Pool/Blocks.antt =====
-- The blocks that the pool has given out do not overlap.
use cat_syn.Prelude.{
  ℕ, zero, suc, ◌+◌, ◌*◌, ◌/◌, ◌≤◌, ◌<◌, ◌≡◌, refl, Bool, true, Option, none, some, List, [], ◌∷◌,
  arith, ◌==◌, ◌&&◌, if◌then◌else◌, Bool-cases, inl, inr, count_if, get_elem?,
}
use cat_syn.Core.Pool.{
  Pool, class_to_size, class_of, base, bin, num_size_classes, alloc, dealloc, low_memory,
}

-- What the program may do: ask for a block, give back the i-th of the blocks that it holds, and be
-- told that memory is low.
pub data Event : Type 0 where
  ask : ℕ → Event
  give : ℕ → Event
  low : ℕ → ℕ → Event

pub record Client : Type 0 where
  pub pool : Pool
  pub live : List ℕ

abbrev pub remove : List ℕ → ℕ → List ℕ
remove [] i = []
remove (x ∷ xs) zero = xs
remove (x ∷ xs) (suc i) = x ∷ remove xs i

-- `none` is a failed check.
unfoldable pub serve : Client → Event → Option Client
unfolding alloc dealloc low_memory
serve s (ask size) = elim (alloc s.pool size) [
  | none ↦ none
  | some (p, pool) ↦ some (record { pool = pool; live = p ∷ s.live })
]
serve s (give i) = elim (get_elem? s.live i) [
  | none ↦ some s
  | some p ↦ elim (dealloc s.pool p) [
    | none ↦ none
    | some pool ↦ some (record { pool = pool; live = remove s.live i })
  ]
]
serve s (low now before) = some (record s { pool = (low_memory now before s.pool).1 })

unfoldable pub serve_all : Client → List Event → Option Client
unfolding serve
serve_all s [] = some s
serve_all s (e ∷ es) = elim (serve s e) [ none ↦ none | some t ↦ serve_all t es ]

abbrev pub count : ℕ → List ℕ → ℕ
count p xs = count_if (λ q. q == p) xs

-- The k-th block of its class, with a number that the class's counter has passed.
pub record IsCut (cur : ℕ → ℕ) (p : ℕ) : Type 0 where
  pub number : ℕ
  pub class : class_of p < num_size_classes
  pub cut : number < cur (class_of p)
  pub within : number * class_to_size (class_of p) < bin
  pub place : p ≡ base + bin * class_of p + number * class_to_size (class_of p)

pub record IsPool (s : Client) : Type 0 where
  pub once : (p : ℕ) → count p s.live + count p (s.pool.stacks (class_of p)) ≤ 1
  pub live_cut : (p : ℕ) → 0 < count p s.live → IsCut s.pool.cur p
  pub stack_cut : (c p : ℕ) → 0 < count p (s.pool.stacks c) → (class_of p ≡ c) × IsCut s.pool.cur p
  pub bounds : (c : ℕ) → c < num_size_classes → s.pool.cur c * class_to_size c ≤ bin

-- Each class divides the region that it has.
fits_below : ℕ → Bool
unfolding class_to_size
fits_below zero = true
fits_below (suc c) = (class_to_size c * (bin / class_to_size c) == bin) && fits_below c

fits_below_lem :
    (n c : ℕ) → fits_below n ≡ true → c < n → class_to_size c * (bin / class_to_size c) ≡ bin
unfolding fits_below
fits_below_lem zero c h lt = absurd (omega arith)
fits_below_lem (suc n) c h lt = elim (Bool-cases (c == n)) [
  | inl e ↦ let same : c ≡ n = ground arith in rw same (ground arith)
  | inr e ↦ fits_below_lem n c (ground arith) (ground arith)
]

all_fit : fits_below 16 ≡ true
unfolding fits_below
all_fit = refl

pub class_to_size-dvd :
    (c : ℕ) → c < num_size_classes → class_to_size c * (bin / class_to_size c) ≡ bin
class_to_size-dvd c small = fits_below_lem 16 c all_fit small

pub class_of_block : (c off : ℕ) → off < bin → class_of (base + bin * c + off) ≡ c
class_of_block c off h = omega arith

-- What is counted twice or not at all.
pub count-remove :
    (xs : List ℕ) (i p q : ℕ)
    → get_elem? xs i ≡ some p
    → count q (remove xs i) + (if p == q then 1 else 0) ≡ count q xs
count-remove [] i p q e = cc
count-remove (x ∷ xs) zero p q e = ground arith
count-remove (x ∷ xs) (suc i) p q e = omega (arith, count-remove xs i p q e)
