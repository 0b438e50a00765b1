-- ===== src/Core/Wedge/Tests.antt =====
-- Three workers: the second takes the lock alone while the first is counted out, then gives it back.
use cat_syn.Prelude.{◌≡◌, ◌⊎◌, refl, List, [], ◌∷◌, ℕ, arith}
use cat_syn.Core.Wedge.{Operation, try_shared, try_exclusive, unlock, idle, backing, run, all_idle}
use cat_syn.Core.Wedge.Exclusion.{writer_alone}

abbrev schedule : List (ℕ × Operation)
schedule =
    (0, try_shared) ∷ (1, try_exclusive) ∷ (0, unlock) ∷ (1, try_exclusive) ∷ (2, try_shared) ∷ []

word_after : (run schedule (record { word = 0; holders = all_idle 3 })).word ≡ 2147483649
unfolding run
word_after = refl

writer_alone_example : (backing ≡ idle) ⊎ (backing ≡ backing)
unfolding run
writer_alone_example =
    writer_alone 3 schedule 1 2 (omega arith) refl refl (λ e. absurd (omega arith))
