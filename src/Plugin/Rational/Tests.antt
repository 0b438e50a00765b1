-- ===== src/Plugin/Rational/Tests.antt =====
-- Runs of muldivRational on a rate of 24000/1001.
use Prim.Native.Nat.{◌∣◌}
use cat_syn.Prelude.{ℕ, ◌*◌, ◌≡◌, some, arith}
use cat_syn.Prelude.Int.{ℤ, pos, int64_mul}
use cat_syn.Plugin.Rational.{traps, muldiv_rational, muldiv_rational_lem, muldiv_rational-total}

muldiv_rational_lem_example :
    (p : ℕ) × (q : ℕ) × (muldiv_rational (pos 24000) (pos 1001) (pos 2) (pos 4)
      ≡ some (pos p, pos q))
    × (p * 4004 ≡ q * 48000)
    × ((c : ℕ) → c ∣ p → c ∣ q → c ≡ 1)
muldiv_rational_lem_example =
    muldiv_rational_lem 24000 1001 2 4 (omega arith) (omega arith) (omega arith) (omega arith)

muldiv_rational-total_example :
    (r : ℤ × ℤ) × (muldiv_rational (pos 24000) (pos 1001) (pos 2) (pos 4) ≡ some r)
unfolding int64_mul traps
muldiv_rational-total_example =
    muldiv_rational-total (pos 24000) (pos 1001) (pos 2) (pos 4) (omega arith)
      (λ _. (omega arith, omega arith, ground arith))
