-- ===== src/Core/Scheduler/Work.antt =====
-- The threads `worker` and `callbacker` of CatSyn/src/substrate.cpp, and the threads together: one
-- event at a time, in any order.
use cat_syn.Prelude.{
  ℕ, ◌+◌, ◌%◌, Bool, true, false, Option, none, some, List, [], ◌∷◌, ◌++◌, map, ◌==◌, if◌then◌else◌,
}
use cat_syn.Core.Scheduler.{
  World, FrameInstance, construct, notify, State, contains, modify, post_work_direct, least,
}
use cat_syn.Core.Scheduler.Maintain.{maintain_task, maintain_turn}

abbrev pub remove_first : ℕ → List ℕ → List ℕ
remove_first i [] = []
remove_first i (x ∷ xs) = if x == i then xs else x ∷ remove_first i xs

abbrev pub remove_running : ℕ → List (ℕ × List (Option ℕ)) → List (ℕ × List (Option ℕ))
remove_running i [] = []
remove_running i ((j, fs) ∷ rest) = if j == i then rest else (j, fs) ∷ remove_running i rest

abbrev pub is_running : ℕ → List (ℕ × List (Option ℕ)) → Bool
is_running i [] = false
is_running i ((j, fs) ∷ rest) = if j == i then true else is_running i rest

-- A worker takes the top of the queue, unless another has taken that instance.
unfoldable pub worker_take : World → State → State
unfolding least modify
worker_take w s = elim s.work_queue as (λ _. State) [
  | [] ↦ s
  | j ∷ js ↦
      let i = least w s j js in
      let t = record s { work_queue = remove_first i s.work_queue } in
      elim (s.heap i) [
        | none ↦ record t { crashed = true }
        | some x ↦
            if x.taken
            then t
            else modify (record t { holding = i ∷ t.holding }) i (λ y. record y { taken = true })
      ]
]

-- The lock of the filter was not to be had: the instance is posted again, a tick later.
unfoldable pub worker_repost : State → ℕ → State
unfolding modify post_work_direct
worker_repost s i =
    if contains i s.holding
    then post_work_direct
        (modify (record s { holding = remove_first i s.holding }) i
          (λ y. record y { tick = (y.tick + 1) % 18446744073709551616; taken = false }))
        i
    else s

unfoldable pub product_of : (ℕ → Option FrameInstance) → ℕ → Option ℕ
product_of heap i = elim (heap i) [ none ↦ none | some x ↦ x.product ]

-- `input_frames`
unfoldable pub input_frames : State → ℕ → List (Option ℕ)
unfolding product_of
input_frames s i = elim (s.heap i) [ none ↦ [] | some x ↦ map (product_of s.heap) x.inputs ]

-- `process_frame` is called, it returns a frame, and that is reported; or it throws.
unfoldable pub worker_process : State → ℕ → State
unfolding input_frames
worker_process s i =
    if contains i s.holding
    then elim (s.heap i) as (λ _. State) [
      | none ↦ record s { crashed = true }
      | some x ↦ record s {
        holding = remove_first i s.holding;
        running = (i, input_frames s i) ∷ s.running;
      }
    ]
    else s

unfoldable pub worker_finish : State → ℕ → ℕ → State
unfolding modify
worker_finish s i frame =
    if is_running i s.running
    then modify (record s { running = remove_running i s.running; reporting = i ∷ s.reporting }) i
        (λ y. record y { product = some frame })
    else s

unfoldable pub worker_report : State → ℕ → State
worker_report s i =
    if contains i s.reporting
    then record s {
      reporting = remove_first i s.reporting;
      maintain_queue = s.maintain_queue ++ notify i none ∷ [];
    }
    else s

unfoldable pub worker_fail : State → ℕ → ℕ → State
worker_fail s i exc =
    if is_running i s.running
    then record s {
      running = remove_running i s.running;
      maintain_queue = s.maintain_queue ++ notify i (some exc) ∷ [];
    }
    else s

-- `Output::get_frame`
unfoldable pub get_frame : State → ℕ → ℕ → ℕ → State
get_frame s sub idx callback = record s {
  maintain_queue = s.maintain_queue ++ construct sub idx (some callback) ∷ [];
}

unfoldable pub callbacker : State → State
callbacker s = elim s.callback_queue as (λ _. State) [
  | [] ↦ s
  | c ∷ cs ↦ record s { callback_queue = cs; delivered = s.delivered ++ c ∷ [] }
]

pub data Event : Type 0 where
  request : ℕ → ℕ → ℕ → Event
  maintain turn take call : Event
  repost process report : ℕ → Event
  finish fail : ℕ → ℕ → Event

-- `none` is that a recursion of the maintainer ran out of fuel.
unfoldable pub step : World → ℕ → State → Event → Option State
unfolding maintain_task maintain_turn worker_take worker_repost worker_process worker_finish
    worker_report worker_fail get_frame callbacker
step w fuel s (request sub idx callback) = some (get_frame s sub idx callback)
step w fuel s maintain = elim s.maintain_queue as (λ _. Option State) [
  | [] ↦ some s
  | task ∷ rest ↦ maintain_task w fuel (record s { maintain_queue = rest }) task
]
step w fuel s turn = some (maintain_turn s)
step w fuel s take = some (worker_take w s)
step w fuel s call = some (callbacker s)
step w fuel s (repost i) = some (worker_repost s i)
step w fuel s (process i) = some (worker_process s i)
step w fuel s (report i) = some (worker_report s i)
step w fuel s (finish i frame) = some (worker_finish s i frame)
step w fuel s (fail i exc) = some (worker_fail s i exc)

unfoldable pub run : World → ℕ → State → List Event → Option State
unfolding step
run w fuel s [] = some s
run w fuel s (e ∷ es) = elim (step w fuel s e) [ none ↦ none | some t ↦ run w fuel t es ]

abbrev pub initial : State
initial = record {
  heap = λ i. none;
  next = 0;
  instances = [];
  alive = [];
  neck = [];
  history = [];
  miss = λ sub. none;
  tick = 0;
  constructed = false;
  maintain_queue = [];
  work_queue = [];
  callback_queue = [];
  holding = [];
  running = [];
  reporting = [];
  delivered = [];
  crashed = false;
}
