-- ===== src/Core/Scheduler.antt =====
-- The scheduler of CatSyn/src/substrate.cpp: the frame instances, the tables of the maintainer and
-- the queues between it, the workers and the callback thread. An address is a number that is not used
-- again after the instance is freed; a freed instance is not in memory, and a write to it, or a worker
-- that takes it or runs it, is a crash. The filters, and the
-- order of the addresses, are parameters.
pub mod Construct
pub mod Maintain
pub mod Work
pub mod Sweep
pub mod Total
pub mod Failure
pub mod Callbacks
mod Tests
use cat_syn.Prelude.{
  ℕ, zero, suc, ◌+◌, ◌%◌, Bool, true, false, not, ◌&&◌, Option, none, some, List, [], ◌∷◌, ◌++◌,
  ltb, ◌==◌, if◌then◌else◌,
}

-- `IFilter`: its flags, and the frames that a frame needs, as pairs of a substrate and an index.
pub record Filter : Type 0 where
  pub make_linear : Bool
  pub single_threaded : Bool
  pub get_frame_data : ℕ → List (ℕ × ℕ)

-- What the scheduler is given: the filter of each substrate, and where each instance lies.
pub record World : Type 0 where
  pub filter : ℕ → Filter
  pub address : ℕ → ℕ

pub record FrameInstance : Type 0 where
  pub substrate : ℕ
  pub product : Option ℕ
  pub inputs : List ℕ
  pub outputs : List ℕ
  pub callback : Option ℕ
  pub frame_data : List (ℕ × ℕ)
  pub tick : ℕ
  pub taken : Bool
  pub false_dep : Bool
  pub single_threaded : Bool
  pub indulgence : ℕ

-- `MaintainTask`: a frame that is wanted, or an instance that a worker has finished, with the exception
-- that it threw.
pub data MaintainTask : Type 0 where
  construct : ℕ → ℕ → Option ℕ → MaintainTask
  notify : ℕ → Option ℕ → MaintainTask

-- `CallbackTask`: the callback, the frame and the exception that it is given.
pub record CallbackTask : Type 0 where
  pub callback : ℕ
  pub frame : Option ℕ
  pub exc : Option ℕ

-- An entry of `neck`: a filter for one thread, whether an instance of it is posted, and those that wait.
pub record Neck : Type 0 where
  pub substrate : ℕ
  pub busy : Bool
  pub waiting : List ℕ

-- The instances in memory by address, the maintainer's tables and tick, the queues, and what the
-- workers are at: the instances that they have taken, those that a filter works on with the frames that
-- it was given, and those that are done and not reported; the calls made of callbacks; and whether an
-- instance was used that is not in memory.
pub record State : Type 0 where
  pub heap : ℕ → Option FrameInstance
  pub next : ℕ
  pub instances : List ((ℕ × ℕ) × ℕ)
  pub alive : List ℕ
  pub neck : List Neck
  pub history : List (ℕ × ℕ)
  pub miss : ℕ → Option ℕ
  pub tick : ℕ
  pub constructed : Bool
  pub maintain_queue : List MaintainTask
  pub work_queue : List ℕ
  pub callback_queue : List CallbackTask
  pub holding : List ℕ
  pub running : List (ℕ × List (Option ℕ))
  pub reporting : List ℕ
  pub delivered : List CallbackTask
  pub crashed : Bool

abbrev pub update : {A : Type 0} → (ℕ → A) → ℕ → A → ℕ → A
update f i a j = if i == j then a else f j

abbrev pub contains : ℕ → List ℕ → Bool
contains i [] = false
contains i (x ∷ xs) = if x == i then true else contains i xs

abbrev pub erase : ℕ → List ℕ → List ℕ
erase i [] = []
erase i (x ∷ xs) = let rest = erase i xs in if x == i then rest else x ∷ rest

abbrev pub same_key : ℕ × ℕ → ℕ × ℕ → Bool
same_key (a, b) (c, d) = (a == c) && (b == d)

-- `instances.find(key)`
unfoldable pub find_instance : List ((ℕ × ℕ) × ℕ) → ℕ × ℕ → Option ℕ
find_instance [] key = none
find_instance ((k, i) ∷ rest) key = if same_key k key then some i else find_instance rest key

-- A write through a pointer.
unfoldable pub modify : State → ℕ → (FrameInstance → FrameInstance) → State
modify s i f = elim (s.heap i) [
  | none ↦ record s { crashed = true }
  | some x ↦ record s { heap = update s.heap i (some (f x)) }
]

unfoldable pub has_product : (ℕ → Option FrameInstance) → ℕ → Bool
has_product heap i = elim (heap i) [
  | none ↦ false
  | some x ↦ elim x.product [ none ↦ false | some _ ↦ true ]
]

unfoldable pub all_products : (ℕ → Option FrameInstance) → List ℕ → Bool
unfolding has_product
all_products heap [] = true
all_products heap (i ∷ is) = has_product heap i && all_products heap is

unfoldable pub check_all_inputs_ready : (ℕ → Option FrameInstance) → ℕ → Bool
unfolding all_products
check_all_inputs_ready heap i = elim (heap i) [ none ↦ false | some x ↦ all_products heap x.inputs ]

unfoldable pub post_work_direct : State → ℕ → State
post_work_direct s i = record s { work_queue = s.work_queue ++ i ∷ [] }

unfoldable pub post_callback : State → ℕ → Option ℕ → Option ℕ → State
post_callback s callback frame exc = record s {
  callback_queue =
      s.callback_queue ++ record { callback = callback; frame = frame; exc = exc } ∷ [];
}

-- `neck[substrate].second.insert(inst)`, which makes the entry where there is none.
unfoldable pub neck_insert : List Neck → ℕ → ℕ → List Neck
neck_insert [] sub i = record { substrate = sub; busy = false; waiting = i ∷ [] } ∷ []
neck_insert (n ∷ ns) sub i =
    if n.substrate == sub
    then (record n { waiting = if contains i n.waiting then n.waiting else i ∷ n.waiting }) ∷ ns
    else n ∷ neck_insert ns sub i

unfoldable pub post_work : State → ℕ → State
unfolding post_work_direct neck_insert
post_work s i = elim (s.heap i) [
  | none ↦ record s { crashed = true }
  | some x ↦
      if x.single_threaded
      then record s { neck = neck_insert s.neck x.substrate i }
      else post_work_direct s i
]

-- `FrameInstanceTickGreater`: the later tick, or the greater address, is the greater.
unfoldable pub tick_greater : World → State → ℕ → ℕ → Bool
tick_greater w s l r =
    let t = λ (i : ℕ). (let n : ℕ = elim (s.heap i) [ none ↦ 0 | some x ↦ x.tick ] in n) in
    if t l == t r then ltb (w.address r) (w.address l) else ltb (t r) (t l)

-- The least of the instances: the top of the work queue, and the last of a set in `neck`.
unfoldable pub least : World → State → ℕ → List ℕ → ℕ
unfolding tick_greater
least w s i [] = i
least w s i (j ∷ js) = least w s (if tick_greater w s i j then j else i) js
