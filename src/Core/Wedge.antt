-- ===== src/Core/Wedge.antt =====
-- The lock of CatSyn/src/queue.h that the workers take while a filter is initialised: one 32-bit
-- word, the number of readers with a bit for the one writer, and no waiting. A worker's position
-- between two atomic operations, and the operations themselves.
pub mod Exclusion
mod Tests
use cat_syn.Prelude.{
  ℕ, zero, suc, ◌+◌, ◌-◌, ◌%◌, Bool, true, false, Option, none, some, List, [], ◌∷◌, get_elem?, leb,
  ◌==◌, if◌then◌else◌,
}

-- `highest`
abbrev pub highest : ℕ
highest = 2147483648

-- The atomic operations on the word, each with the value that it leaves.
abbrev pub add_one : ℕ → ℕ
add_one w = (w + 1) % 4294967296

abbrev pub sub_one : ℕ → ℕ
sub_one w = (w + 4294967295) % 4294967296

abbrev pub has_highest : ℕ → Bool
has_highest w = leb highest (w % 4294967296)

-- `fetch_and(~highest)`
abbrev pub clear_highest : ℕ → ℕ
clear_highest w = w % 2147483648

-- Where a worker stands: it holds nothing, it has counted itself but found a writer, it holds the
-- lock with others (`state == 1`), or alone (`state == 2`).
pub data Holder : Type 0 where
  idle backing shared exclusive : Holder

-- The next atomic operation of a worker. `fail_exclusive` is a `compare_exchange_weak` that fails for
-- no reason.
pub data Operation : Type 0 where
  try_shared back_off try_exclusive fail_exclusive unlock : Operation

-- `try_lock_shared` is `try_shared`, and `back_off` where that found a writer; `unlock` is the
-- destructor of `WedgeLock`. `none` is an operation that the worker does not do where it stands.
unfoldable pub operate : Operation → Holder → ℕ → Option (Holder × ℕ)
operate try_shared idle w = some (if has_highest w then backing else shared, add_one w)
operate back_off backing w = some (idle, sub_one w)
operate try_exclusive idle w = some (if w == 0 then (exclusive, highest) else (idle, w))
operate fail_exclusive idle w = some (idle, w)
operate unlock shared w = some (idle, sub_one w)
operate unlock exclusive w = some (idle, clear_highest w)
operate _ _ w = none

pub record Workers : Type 0 where
  pub word : ℕ
  pub holders : List Holder

abbrev pub set : List Holder → ℕ → Holder → List Holder
set [] i h = []
set (g ∷ gs) zero h = h ∷ gs
set (g ∷ gs) (suc i) h = g ∷ set gs i h

-- Worker i does an operation; where it cannot, nothing happens.
unfoldable pub step : Workers → ℕ → Operation → Workers
unfolding operate
step s i op = elim (get_elem? s.holders i) [
  | none ↦ s
  | some h ↦ elim (operate op h s.word) [
    | none ↦ s
    | some (h', w') ↦ record { word = w'; holders = set s.holders i h' }
  ]
]

-- The workers in any order, an atomic operation at a time.
unfoldable pub run : List (ℕ × Operation) → Workers → Workers
unfolding step
run [] s = s
run ((i, op) ∷ rest) s = run rest (step s i op)

abbrev pub all_idle : ℕ → List Holder
all_idle zero = []
all_idle (suc n) = idle ∷ all_idle n
