-- ===== src/Core/Scheduler/Tests.antt =====
-- A source, and a filter that needs two frames of it.
use cat_syn.Prelude.{
  ℕ, zero, suc, ◌+◌, ◌≡◌, refl, Bool, true, false, Option, none, some, ◌⊎◌, List, [], ◌∷◌, ◌++◌,
  arith, All,
}
use cat_syn.Core.Scheduler.{
  Filter, World, FrameInstance, State, update, has_product, contains, find_instance,
}
use cat_syn.Core.Scheduler.Construct.{construct_frame}
use cat_syn.Core.Scheduler.Maintain.{maintain_notify, kill_tree, free_unused}
use cat_syn.Core.Scheduler.Sweep.{free_unused_lem}
use cat_syn.Core.Scheduler.Work.{
  Event, request, maintain, take, turn, process, report, finish, run, initial,
}
use cat_syn.Core.Scheduler.Total.{Falls, construct_frame_total}
use cat_syn.Core.Scheduler.Failure.{outputs_of, callback_of, Has, told_of}
use cat_syn.Core.Scheduler.Failure.Kill.{Acyclic, kill_tree_lem}
use cat_syn.Core.Scheduler.Callbacks.{maintain_notify-finished}

abbrev filters : ℕ → Filter
filters zero = record { make_linear = false; single_threaded = false; get_frame_data = λ idx. [] }
filters (suc n) = record {
  make_linear = false;
  single_threaded = false;
  get_frame_data = λ idx. (0, idx) ∷ (0, idx + 1) ∷ [];
}

abbrev world : World
world = record { filter = filters; address = λ i. i }

-- Both inputs are finished before the first is reported.
abbrev events : List Event
events =
    request 1 5 7
    ∷ maintain
    ∷ take
    ∷ take
    ∷ process 1
    ∷ process 2
    ∷ finish 1 100
    ∷ finish 2 101
    ∷ report 1
    ∷ report 2
    ∷ maintain
    ∷ maintain
    ∷ []

abbrev is_some : {A : Type 0} → Option A → Bool
is_some none = false
is_some (some a) = true

abbrev value_of : Option State → State
value_of none = initial
value_of (some s) = s

abbrev posted : State
posted = value_of (run world 3 initial events)

-- The instance is posted for each of the two reports.
posted_twice : posted.work_queue ≡ 0 ∷ 0 ∷ []
unfolding run
posted_twice = refl

abbrev started : State
started = value_of (run world 3 initial (events ++ take ∷ process 0 ∷ []))

frames_of_started : started.running ≡ (0, some 100 ∷ some 101 ∷ []) ∷ []
unfolding run
frames_of_started = refl

-- The second entry is still there when the instance is freed, and a worker takes it.
abbrev used_after_free : State
used_after_free = value_of (
    run world 3 initial (
      events
      ++ (take
          ∷ process 0
          ∷ finish 0 102
          ∷ report 0
          ∷ maintain
          ∷ request 0 9 8
          ∷ maintain
          ∷ turn
          ∷ take
          ∷ [])))

crash : used_after_free.crashed ≡ true
unfolding run
crash = refl

falls : Falls world (λ key. key.0)
falls zero idx = tt
falls (suc n) idx = (omega arith, (omega arith, tt))

construct_frame_total_example :
    (i : ℕ) × (t : State) × (construct_frame world 3 initial (2, 9) (some 4) false ≡ some (i, t))
    × (find_instance t.instances (2, 9) ≡ some i)
construct_frame_total_example =
    construct_frame_total world (λ key. key.0) 3 initial 2 9 (some 4) false falls (omega arith)

abbrev source : FrameInstance
source = record {
  substrate = 0;
  product = none;
  inputs = [];
  outputs = 1 ∷ [];
  callback = none;
  frame_data = [];
  tick = 0;
  taken = true;
  false_dep = false;
  single_threaded = false;
  indulgence = 0;
}

abbrev heap : ℕ → Option FrameInstance
heap zero = some source
heap (suc zero) = some (record source {
  substrate = 1;
  inputs = 0 ∷ [];
  outputs = [];
  callback = some 7;
  taken = false;
})
heap (suc (suc n)) = none

abbrev pair : State
pair = record initial {
  heap = heap;
  next = 2;
  alive = 0 ∷ 1 ∷ [];
  instances = ((0, 5), 0) ∷ ((1, 5), 1) ∷ [];
}

abbrev height : ℕ → ℕ
height zero = 1
height (suc n) = 0

height_falls : Acyclic height heap
unfolding outputs_of
height_falls zero = (omega arith, tt)
height_falls (suc zero) = tt
height_falls (suc (suc n)) = tt

kill_tree_lem_example :
    (t : State) × (kill_tree 2 pair 0 13 ≡ some t)
    × (contains 0 t.alive ≡ false)
    × All (λ o. contains o t.alive ≡ false) (outputs_of heap 0)
    × ((j : ℕ) → contains j pair.alive ≡ false → contains j t.alive ≡ false)
    × ((j callback : ℕ)
        → callback_of heap j ≡ some callback
        → contains j pair.alive ≡ true
        → contains j t.alive ≡ false
        → Has (told_of callback 13) t.callback_queue)
kill_tree_lem_example = kill_tree_lem height 2 pair 0 13 height_falls (omega arith)

abbrev finished : FrameInstance
finished = record source { product = some 42; callback = some 6 }

abbrev heap_finished : ℕ → Option FrameInstance
heap_finished zero = some finished
heap_finished (suc n) = heap (suc n)

abbrev reported : State
reported = record pair { heap = heap_finished }

maintain_notify-finished_example :
    (t : State) × (maintain_notify 2 reported 0 none ≡ some t)
    × (t.callback_queue ≡ record { callback = 6; frame = some 42; exc = none } ∷ [])
    × (callback_of t.heap 0 ≡ none)
maintain_notify-finished_example = maintain_notify-finished 2 reported 0 6 finished refl refl refl

-- The instance 0 is told of, its output has its product, and nothing holds it.
abbrev idle : FrameInstance
idle = record source { product = some 42 }

abbrev settled : State
settled = record pair {
  heap =
      update (update heap 0 (some idle)) 1
        (some (record source { substrate = 1; outputs = []; product = some 43 }));
}

idle_freed : (free_unused settled).heap 0 ≡ none
unfolding free_unused
idle_freed = refl

free_unused_lem_example :
    ((((free_unused settled).heap 0 ≡ none) × (contains 0 (free_unused settled).alive ≡ false))
      × ((p : ℕ) × (◌≡◌ {A = Option ℕ} (some 42) (some p)))
      × (◌≡◌ {A = Option ℕ} none none)
      × (false ≡ false)
      × All (λ o. contains o settled.alive ≡ true → has_product settled.heap o ≡ true) (1 ∷ []))
    ⊎ ((y : FrameInstance) × ((free_unused settled).heap 0 ≡ some y)
        × (y.product ≡ some 42)
        × (y.callback ≡ none)
        × (y.single_threaded ≡ false)
        × (y.outputs ≡ 1 ∷ []))
free_unused_lem_example = free_unused_lem settled 0 idle refl
