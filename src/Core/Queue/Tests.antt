-- ===== src/Core/Queue/Tests.antt =====
-- Two pushes whose halves interleave, the second linked first.
use cat_syn.Prelude.{ℕ, ◌≡◌, ◌≤◌, ◌++◌, refl, Option, none, some, List, [], ◌∷◌}
use cat_syn.Core.Queue.{new, run, pop, taken, empty, Event, begin, end, poll, pushed}
use cat_syn.Core.Queue.Fifo.{fifo}

abbrev events : List Event
events = begin (some 7) ∷ begin none ∷ end 1 ∷ poll ∷ end 0 ∷ poll ∷ begin (some 9) ∷ []

first_taken : (run new [] events).1 ≡ some 7 ∷ []
unfolding run
first_taken = refl

fifo_example :
    (rest : List (Option ℕ)) × ((run new [] events).1 ++ rest ≡ pushed events)
    × ((pop (run new [] events).0).0 ≡ empty → rest ≡ [])
    × (((i : ℕ) → (run new [] events).0.pending i ≡ none)
        → (v : Option ℕ) (vs : List (Option ℕ)) → rest ≡ v ∷ vs
        → (pop (run new [] events).0).0 ≡ taken v)
    × ((i n : ℕ) → (run new [] events).0.pending i ≡ some n → (run new [] events).0.tail ≤ i)
fifo_example = fifo events
