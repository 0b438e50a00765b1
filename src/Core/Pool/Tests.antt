-- ===== src/Core/Pool/Tests.antt =====
-- Two blocks of 8192 bytes, the first of them given back and asked for again.
use cat_syn.Prelude.{
  ℕ, ◌+◌, ◌*◌, ◌≤◌, ◌<◌, ◌≡◌, ◌⊎◌, refl, Bool, true, false, Option, none, some, List, [], ◌∷◌,
  arith,
}
use cat_syn.Core.Pool.{
  size_to_size_class, class_to_size, alloc_size, num_size_classes, own_ptr, empty,
}
use cat_syn.Core.Pool.Classes.{size_to_size_class_bounds}
use cat_syn.Core.Pool.Blocks.{Event, ask, give, low, Client, serve_all}
use cat_syn.Core.Pool.Disjoint.{live_disjoint}

abbrev calls : List Event
calls = ask 5000 ∷ ask 8192 ∷ low 20 3 ∷ give 1 ∷ ask 4097 ∷ ask 4096 ∷ []

abbrev start : Client
start = record { pool = empty; live = [] }

abbrev value_of : Option Client → Client
value_of none = start
value_of (some s) = s

abbrev is_some : Option Client → Bool
is_some none = false
is_some (some s) = true

some_value : (o : Option Client) → is_some o ≡ true → o ≡ some (value_of o)
some_value none h = cc
some_value (some s) h = refl

abbrev after : Client
after = value_of (serve_all start calls)

after_returns : serve_all start calls ≡ some after
unfolding serve_all
after_returns = some_value (serve_all start calls) refl

live_after : after.live ≡ 123145302310912 ∷ 123282741264384 ∷ 123282741272576 ∷ []
unfolding serve_all
live_after = refl

owned : own_ptr 123282741272576 ≡ true
unfolding own_ptr
owned = refl

live_disjoint_example :
    (123282741264384 + alloc_size 123282741264384 ≤ 123282741272576)
    ⊎ (123282741272576 + alloc_size 123282741272576 ≤ 123282741264384)
unfolding serve_all
live_disjoint_example =
    live_disjoint calls after 1 2 123282741264384 123282741272576 after_returns refl refl
      (omega arith)

size_to_size_class_bounds_example :
    (c : ℕ) × (size_to_size_class 5000 ≡ some c)
    × (c < num_size_classes)
    × (5000 ≤ class_to_size c)
    × (class_to_size c < 2 * 5000)
size_to_size_class_bounds_example = size_to_size_class_bounds 5000 (omega arith) (omega arith)
