-- ===== src/Plugin/Rational.antt =====
-- `muldivRational`, of VapStd/VSHelper.h: a frame rate or a duration is multiplied and divided, and
-- brought to lowest terms by Euclid's loop. Each round lowers the magnitude of `b`, so one round more
-- than that magnitude is fuel enough.
mod Tests
use Prim.Native.Nat.{◌∣◌}
use cat_syn.Prelude.{
  ℕ, zero, suc, ◌+◌, ◌*◌, ◌/◌, ◌%◌, ◌≤◌, ◌<◌, ◌≡◌, ◌≢◌, ◌⊎◌, inl, inr, refl, ap, sym, ◌∙◌, subst,
  Bool, true, false, ◌&&◌, Option, none, some, arith, if◌then◌else◌, Bool-cases,
}
use cat_syn.Prelude.Int.{
  ℤ, pos, negsuc, magnitude, eqb_ℤ, ltb_ℤ, int_div, int_mod, int_mod-magnitude, int_mod-IsInt64,
  IsInt64, wrap64-IsInt64, int64_mul-IsInt64, int64_mul, int64_mul-pos, wrap64, ◌-ℤ◌, ◌≤ℤ◌, sub_ℕ,
}
use native.Mathlib.Nat.{
  dvd_refl, mul-one, add-zero, mul-dvd-mul_left, dvd-zero, dvd-mod_iff, mul-div_cancel',
  div-mul_cancel, pos_of_dvd_of_pos, dvd_of_mul-dvd-mul_left, le_of_dvd, mul_comm, mul_assoc,
  dvd_trans, eq-one_of_dvd-one,
}

-- `t % b` with a quotient that does not fit 64 bits: undefined in C, and a trap of the processor.
unfoldable pub traps : ℤ → ℤ → Bool
traps t b = eqb_ℤ t (negsuc 9223372036854775807) && eqb_ℤ b (negsuc 0)

-- `while (b != 0) { t = a; a = b; b = t % b; }`; `none` is that the fuel is at an end, or a trap.
unfoldable pub gcd_loop : ℕ → ℤ → ℤ → Option ℤ
unfolding traps
gcd_loop zero a b = none
gcd_loop (suc fuel) a b = elim (eqb_ℤ b (pos 0)) [
  | true ↦ some a
  | false ↦ elim (traps a b) [ true ↦ none | false ↦ gcd_loop fuel b (int_mod a b) ]
]

-- `num` and `den` over the divisor, which is made positive first; `none` is a division by zero.
reduce : ℤ → ℤ → ℤ → Option (ℤ × ℤ)
unfolding wrap64 ◌-ℤ◌
reduce num den a =
    let a' = if ltb_ℤ a (pos 0) then wrap64 (pos 0 -ℤ a) else a in
    if eqb_ℤ a' (pos 0) then none else some (int_div num a', int_div den a')

reduce_by : ℤ → ℤ → Option ℤ → Option (ℤ × ℤ)
unfolding reduce
reduce_by num den none = none
reduce_by num den (some a) = reduce num den a

-- The new numerator and denominator; `none` is a failed `assert(div)`, a division by zero or a trap.
pub muldiv_rational : ℤ → ℤ → ℤ → ℤ → Option (ℤ × ℤ)
unfolding reduce_by
muldiv_rational num den mul div =
    let num' = int64_mul num mul in
    let den' = int64_mul den div in
    if eqb_ℤ den (pos 0)
    then some (num, den)
    else if eqb_ℤ div (pos 0)
    then none
    else reduce_by num' den' (gcd_loop (suc (magnitude den')) num' den')

-- What Euclid's loop finds: a common divisor that every common divisor divides.
record IsGcd (a b g : ℕ) : Type 0 where
  left : g ∣ a
  right : g ∣ b
  greatest : (c : ℕ) → c ∣ a → c ∣ b → c ∣ g

gcd_loop-suc :
    (fuel a b : ℕ)
    → gcd_loop (suc fuel) (pos a) (pos (suc b)) ≡ gcd_loop fuel (pos (suc b)) (pos (a % suc b))
unfolding gcd_loop int_mod traps
gcd_loop-suc fuel a b = ground arith

gcd_loop-IsGcd :
    (fuel a b : ℕ)
    → b < fuel
    → (g : ℕ) × (gcd_loop fuel (pos a) (pos b) ≡ some (pos g)) × IsGcd a b g
unfolding gcd_loop
gcd_loop-IsGcd zero a b h = elim h [ ]
gcd_loop-IsGcd (suc fuel) a zero h =
    (a, refl, record { left = dvd_refl a; right = dvd-zero a; greatest = λ c p q. p })
gcd_loop-IsGcd (suc fuel) a (suc b) h =
    let (g, found, common) = gcd_loop-IsGcd fuel (suc b) (a % suc b) (omega arith) in
    (
      g,
      gcd_loop-suc fuel a b ∙ found,
      record {
        left = (dvd-mod_iff g common.left).0 common.right;
        right = common.left;
        greatest = λ c p q. common.greatest c q ((dvd-mod_iff c q).1 p);
      },
    )

reduce-pos : (n d g : ℕ) → 0 < g → reduce (pos n) (pos d) (pos g) ≡ some (pos (n / g), pos (d / g))
unfolding reduce int_div
reduce-pos n d g h = ground arith

muldiv_rational-reduce :
    (num den mul div g : ℕ)
    → 0 < den
    → 0 < div
    → num * mul < 9223372036854775808
    → den * div < 9223372036854775808
    → gcd_loop (suc (den * div)) (pos (num * mul)) (pos (den * div)) ≡ some (pos g)
    → muldiv_rational (pos num) (pos den) (pos mul) (pos div)
      ≡ reduce (pos (num * mul)) (pos (den * div)) (pos g)
unfolding muldiv_rational
muldiv_rational-reduce num den mul div g hden hdiv hn hd found =
    rw (int64_mul-pos num mul hn, int64_mul-pos den div hd) (ground (arith, add-zero (den * div)))

-- The quotients by the greatest common divisor have no common divisor but 1.
coprime_of_IsGcd : (n d g c : ℕ) → IsGcd n d g → 0 < g → c ∣ n / g → c ∣ d / g → c ≡ 1
coprime_of_IsGcd n d g c common positive p q = eq-one_of_dvd-one (
    dvd_of_mul-dvd-mul_left {k = g} c positive
      (subst (λ t. g * c ∣ t) (sym (mul-one g)) (common.greatest (g * c) left right)))
  where
    left : g * c ∣ n
    left = subst (λ t. g * c ∣ t) (mul-div_cancel' g common.left) (mul-dvd-mul_left c g p)

    right : g * c ∣ d
    right = subst (λ t. g * c ∣ t) (mul-div_cancel' g common.right) (mul-dvd-mul_left c g q)

cross_of_mul : (x y g n d : ℕ) → g * x ≡ n → g * y ≡ d → x * d ≡ y * n
cross_of_mul x y g n d p q = rw (← p, ← q) (omega arith)

-- For a fraction `num / den`, the numbers not negative, den and div positive, and both products
-- within 64 bits, muldivRational gives the fraction `num * mul / (den * div)` in lowest terms: the
-- cross products agree, and no number but 1 divides both parts.
pub muldiv_rational_lem :
    (num den mul div : ℕ)
    → 0 < den
    → 0 < div
    → num * mul < 9223372036854775808
    → den * div < 9223372036854775808
    → (p : ℕ) × (q : ℕ) × (muldiv_rational (pos num) (pos den) (pos mul) (pos div)
        ≡ some (pos p, pos q))
      × (p * (den * div) ≡ q * (num * mul))
      × ((c : ℕ) → c ∣ p → c ∣ q → c ≡ 1)
muldiv_rational_lem num den mul div hden hdiv hn hd =
    let n = num * mul in
    let d = den * div in
    let (g, found, common) = gcd_loop-IsGcd (suc d) n d (omega arith) in
    let positive : 0 < g = pos_of_dvd_of_pos common.right (grind arith) in
    (
      n / g,
      d / g,
      muldiv_rational-reduce num den mul div g hden hdiv hn hd found ∙ reduce-pos n d g positive,
      cross_of_mul (n / g) (d / g) g n d (mul-div_cancel' g common.left)
          (mul-div_cancel' g common.right),
      λ c. coprime_of_IsGcd n d g c common positive,
    )

-- What the loop ends with on any 64-bit numbers that are not both 0.
record IsDivisor (g : ℤ) : Type 0 where
  nonzero : 0 < magnitude g
  fits : IsInt64 g

-- Only the least number of 64 bits traps.
traps-small : (t b : ℤ) → magnitude t < 9223372036854775808 → traps t b ≡ false
unfolding traps
traps-small t b h = ground arith

pub traps-nonneg : (t b : ℤ) → pos 0 ≤ℤ b → traps t b ≡ false
unfolding traps
traps-nonneg t b h = ground arith

gcd_loop-total :
    (fuel : ℕ) (a b : ℤ)
    → magnitude b < fuel
    → 0 < magnitude a + magnitude b
    → traps a b ≡ false
    → magnitude b < 9223372036854775808
    → IsInt64 a
    → IsInt64 b
    → (g : ℤ) × (gcd_loop fuel a b ≡ some g) × IsDivisor g
unfolding gcd_loop
gcd_loop-total zero a b h p safe hm ha hb = elim h [ ]
gcd_loop-total (suc fuel) a b h p safe hm ha hb = elim (Bool-cases (eqb_ℤ b (pos 0))) [
  | inl done ↦ (a, rw (done, gcd_loop), record { nonzero = ground arith; fits = ha })
  | inr more ↦
      let positive : 0 < magnitude b = ground arith in
      let smaller = int_mod-magnitude a b positive in
      rw (more, safe, gcd_loop)
        (gcd_loop-total fuel b (int_mod a b) (omega (arith, smaller)) (omega arith)
          (traps-small b (int_mod a b) hm) (omega (arith, smaller)) hb (int_mod-IsInt64 a b ha hb))
]

reduce-total : (num den g : ℤ) → IsDivisor g → (r : ℤ × ℤ) × (reduce num den g ≡ some r)
unfolding reduce
reduce-total num den (pos g) h =
    ((int_div num (pos g), int_div den (pos g)), ground (arith, h.nonzero))
reduce-total num den (negsuc g) h = (
  (int_div num (wrap64 (pos 0 -ℤ negsuc g)), int_div den (wrap64 (pos 0 -ℤ negsuc g))),
  ground (arith, h.fits),
)

-- muldivRational returns, its loop ends and it neither divides by zero nor traps, for every div that is
-- not 0, where den is 0, or the wrapped product of den and div is neither 0 nor the least number of 64
-- bits, and that product is not -1 with the least number as the wrapped product of num and mul.
pub muldiv_rational-total :
    (num den mul div : ℤ)
    → 0 < magnitude div
    → (0 < magnitude den
        → (0 < magnitude (int64_mul den div))
          × (magnitude (int64_mul den div) < 9223372036854775808)
          × (traps (int64_mul num mul) (int64_mul den div) ≡ false))
    → (r : ℤ × ℤ) × (muldiv_rational num den mul div ≡ some r)
unfolding muldiv_rational
muldiv_rational-total num den mul div hdiv hden = elim (Bool-cases (eqb_ℤ den (pos 0))) [
  | inl invalid ↦ ((num, den), rw invalid)
  | inr valid ↦
      let h3 = hden (ground arith) in
      let (g, found, h) =
        gcd_loop-total (suc (magnitude (int64_mul den div))) (int64_mul num mul) (int64_mul den div)
          (omega arith) (omega (arith, h3.0)) h3.2 h3.1 (int64_mul-IsInt64 num mul)
          (int64_mul-IsInt64 den div) in
      let (r, e) = reduce-total (int64_mul num mul) (int64_mul den div) g h in (r, ground arith)
]
