-- ===== src/Core/Table/Tests.antt =====
-- Runs of tables.
use cat_syn.Prelude.{ℕ, ◌≡◌, refl, none, some, List, [], ◌∷◌}
use cat_syn.Prelude.Int.{pos}
use cat_syn.Plugin.Types.{ints}
use cat_syn.Plugin.VsMap.{VsMap}
use cat_syn.Plugin.VsMap
use cat_syn.Core.Table.{Slot, size, next, prev, clone, seek, seek_back, npos}

abbrev args : VsMap
args = ("first", ints (pos 10 ∷ [])) ∷ ("last", ints (pos 29 ∷ [])) ∷ []

-- A table with a hole, and an object without a key.
abbrev holed : List (Slot ℕ)
holed =
    record { key = some "a"; value = some 1 }
    ∷ record { key = none; value = none }
    ∷ record { key = none; value = some 2 }
    ∷ []

next_of_holed : next holed npos ≡ 0
unfolding next seek
next_of_holed = refl

next_of_first : next holed 0 ≡ 2
unfolding next seek
next_of_first = refl

prev_of_last : prev holed 2 ≡ some 0
unfolding prev seek_back
prev_of_last = refl

size_of_holed : size holed ≡ some 2
unfolding size next seek
size_of_holed = refl

clone_of_holed : clone holed ≡ none
unfolding clone next seek
clone_of_holed = refl
