-- ===== src/Core/Pool/Classes.antt =====
-- The size classes: each holds what is asked of it, and a block tells its class.
use native.Mathlib.Decide.{dec_le}
use native.Mathlib.Nat.{pow-succ'}
use cat_syn.Prelude.{ℕ, zero, suc, ◌+◌, ◌-◌, ◌*◌, ◌/◌, ◌^◌, ◌%◌, ◌≤◌, ◌<◌, ◌≡◌, refl, some, arith}
use cat_syn.Core.Pool.{bit_width, size_to_size_class, class_to_size, num_size_classes}

-- The width of n is suc w where n has its highest bit at w.
bit_width_lem : (fuel w n : ℕ) → w < fuel → 2 ^ w ≤ n → n < 2 * 2 ^ w → bit_width fuel n ≡ suc w
unfolding bit_width
bit_width_lem zero w n h low high = absurd (omega arith)
bit_width_lem (suc zero) zero n h low high = ground arith
bit_width_lem (suc (suc fuel)) zero n h low high = ground arith
bit_width_lem (suc fuel) (suc w) n h low high =
    ground (arith, pow-succ' 2 w, bit_width_lem fuel w (n / 2))

shift_eq : (c : ℕ) → 2 ^ (c + 11) ≡ 2048 * 2 ^ c
shift_eq zero = refl
shift_eq (suc c) =
    let e : suc c + 11 ≡ suc (c + 11) = omega arith in
    rw e (omega (arith, pow-succ' 2 (c + 11), pow-succ' 2 c, shift_eq c))

-- What the class holds, as a width of the size less one.
bit_width_class :
    (size c : ℕ)
    → c < num_size_classes
    → size ≤ 4096 * 2 ^ c
    → 4096 * 2 ^ c < 2 * size
    → bit_width 64 (size - 1) ≡ suc (c + 11)
bit_width_class size c small high low =
    let e = shift_eq c in
    bit_width_lem 64 (c + 11) (size - 1) (omega arith) (omega arith) (omega arith)

-- What makes c the class of a size.
pub size_to_size_class_lem :
    (size c : ℕ)
    → c < num_size_classes
    → size ≤ class_to_size c
    → class_to_size c < 2 * size
    → size < 18446744073709551616
    → size_to_size_class size ≡ some c
unfolding size_to_size_class class_to_size
size_to_size_class_lem size c small high low fits =
    let e : (size + 18446744073709551615) % 18446744073709551616 ≡ size - 1 = omega arith in
    let w = bit_width_class size c small high low in rw (e, w) (ground arith)

class_for :
    (k size : ℕ)
    → 4096 ≤ size
    → size ≤ class_to_size k
    → (c : ℕ) × (c ≤ k) × (size ≤ class_to_size c) × (class_to_size c < 2 * size)
unfolding class_to_size
class_for zero size low high = (0, omega arith, omega arith, omega arith)
class_for (suc k) size low high = elim (dec_le size (4096 * 2 ^ k)) [
  | yes p ↦ let (c, le, a, b) = class_for k size low p in (c, omega arith, a, b)
  | no p ↦ (suc k, omega arith, high, omega (arith, pow-succ' 2 k))
]

-- A size from 4096 bytes to 2 ^ 27 has a class, whose blocks are at least as large, and less than
-- twice as large.
pub size_to_size_class_bounds :
    (size : ℕ)
    → 4096 ≤ size
    → size ≤ 134217728
    → (c : ℕ) × (size_to_size_class size ≡ some c)
      × (c < num_size_classes)
      × (size ≤ class_to_size c)
      × (class_to_size c < 2 * size)
unfolding class_to_size
size_to_size_class_bounds size low high =
    let (c, le, a, b) = class_for 15 size low high in
    (c, size_to_size_class_lem size c (omega arith) a b (omega arith), omega arith, a, b)
