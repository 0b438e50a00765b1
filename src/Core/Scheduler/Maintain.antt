-- ===== src/Core/Scheduler/Maintain.antt =====
-- The thread `maintainer` of CatSyn/src/substrate.cpp: what it does with a task, and what after each
-- turn. `kill_tree` has fuel; `none` is that it ran out.
use cat_syn.Prelude.{
  ℕ, zero, suc, ◌+◌, ◌-◌, ◌%◌, Bool, true, false, not, ◌&&◌, ◌||◌, Option, none, some, List, [],
  ◌∷◌, ◌++◌, ltb, length, ◌==◌, if◌then◌else◌,
}
use cat_syn.Core.Scheduler.{
  World, FrameInstance, MaintainTask, update, construct, notify, Neck, State, contains, erase,
  modify, has_product, check_all_inputs_ready, post_callback, post_work, least,
}
use cat_syn.Core.Scheduler.Construct.{construct_frame}

-- The outputs that wait for nothing else.
unfoldable pub post_outputs : State → List ℕ → State
unfolding has_product check_all_inputs_ready post_work
post_outputs s [] = s
post_outputs s (o ∷ os) =
    post_outputs
      (if contains o s.alive && not (has_product s.heap o) && check_all_inputs_ready s.heap o
        then post_work s o
        else s)
      os

-- `item.first = false; item.second.erase(inst)`, which makes the entry where there is none.
unfoldable pub neck_release : List Neck → ℕ → ℕ → List Neck
neck_release [] sub i = record { substrate = sub; busy = false; waiting = [] } ∷ []
neck_release (n ∷ ns) sub i =
    if n.substrate == sub
    then (record n { busy = false; waiting = erase i n.waiting }) ∷ ns
    else n ∷ neck_release ns sub i

unfoldable pub release : State → ℕ → FrameInstance → State
unfolding neck_release modify
release s i x =
    if x.single_threaded
    then modify (record s { neck = neck_release s.neck x.substrate i }) i
        (λ y. record y { single_threaded = false })
    else s

-- The callback, if there is one, is moved out of the instance and posted.
unfoldable pub give_callback : State → ℕ → FrameInstance → Option ℕ → Option ℕ → State
unfolding modify post_callback
give_callback s i x frame exc = elim x.callback [
  | none ↦ s
  | some callback ↦
      post_callback (modify s i (λ y. record y { callback = none })) callback frame exc
]

unfoldable pub kill_outputs : (State → ℕ → Option State) → List ℕ → State → Option State
kill_outputs rec [] s = some s
kill_outputs rec (o ∷ os) s = elim (if contains o s.alive then rec s o else some s) [
  | none ↦ none
  | some t ↦ kill_outputs rec os t
]

unfoldable pub kill_tree : ℕ → State → ℕ → ℕ → Option State
unfolding give_callback kill_outputs
kill_tree zero s i exc = none
kill_tree (suc fuel) s i exc = elim (s.heap i) [
  | none ↦ some (record s { alive = erase i s.alive })
  | some x ↦
      let rec = λ (t : State) (o : ℕ). kill_tree fuel t o exc in
      elim (kill_outputs rec x.outputs (give_callback s i x none (some exc))) [
        | none ↦ none
        | some t ↦ some (record t { alive = erase i t.alive })
      ]
]

abbrev pub keep_alive : List ℕ → List ((ℕ × ℕ) × ℕ) → List ((ℕ × ℕ) × ℕ)
keep_alive alive [] = []
keep_alive alive ((k, i) ∷ rest) =
    let r = keep_alive alive rest in if contains i alive then (k, i) ∷ r else r

-- What goes with the entries of `instances`, whose pointers own what they point at.
unfoldable pub free_dead :
    List ℕ → List ((ℕ × ℕ) × ℕ) → (ℕ → Option FrameInstance) → ℕ → Option FrameInstance
free_dead alive [] heap = heap
free_dead alive ((k, i) ∷ rest) heap =
    free_dead alive rest (if contains i alive then heap else update heap i none)

-- A worker's report of an instance.
unfoldable pub maintain_notify : ℕ → State → ℕ → Option ℕ → Option State
unfolding release post_outputs give_callback kill_tree free_dead
maintain_notify fuel s i exc =
    if contains i s.alive
    then elim (s.heap i) [
      | none ↦ some (record s { crashed = true })
      | some x ↦
          let t = release s i x in
          elim exc as (λ _. Option State) [
            | none ↦ some (give_callback (post_outputs t x.outputs) i x x.product none)
            | some e ↦ elim (kill_tree fuel t i e) [
              | none ↦ none
              | some u ↦ some (record u {
                instances = keep_alive u.alive u.instances;
                heap = free_dead u.alive u.instances u.heap;
              })
            ]
          ]
    ]
    else some s

-- Each filter for one thread that has none posted gets the least that waits.
unfoldable pub widen_entry : World → State → Neck → List ℕ → Neck × List ℕ
unfolding least
widen_entry w s n [] = (n, [])
widen_entry w s n (i ∷ is) =
    let top = least w s i is in
    if n.busy then (n, []) else (record n { busy = true; waiting = erase top (i ∷ is) }, top ∷ [])

unfoldable pub widen : World → State → List Neck → List Neck × List ℕ
unfolding widen_entry
widen w s [] = ([], [])
widen w s (n ∷ ns) =
    let entry = widen_entry w s n n.waiting in
    let rest = widen w s ns in (entry.0 ∷ rest.0, entry.1 ++ rest.1)

unfoldable pub post_neck : World → State → State
unfolding widen
post_neck w s =
    let r = widen w s s.neck in record s { neck = r.0; work_queue = s.work_queue ++ r.1 }

unfoldable pub maintain_task : World → ℕ → State → MaintainTask → Option State
unfolding construct_frame maintain_notify post_neck
maintain_task w fuel s (construct sub idx callback) =
    elim (construct_frame w fuel s (sub, idx) callback false) [
      | none ↦ none
      | some (i, t) ↦ some (post_neck w (record t { constructed = true }))
    ]
maintain_task w fuel s (notify i exc) = elim (maintain_notify fuel s i exc) [
  | none ↦ none
  | some t ↦ some (post_neck w t)
]

unfoldable pub awaited : State → List ℕ → Bool
unfolding has_product
awaited s [] = false
awaited s (o ∷ os) = (contains o s.alive && not (has_product s.heap o)) || awaited s os

unfoldable pub in_use : State → FrameInstance → Bool
unfolding awaited
in_use s x =
    elim x.product [ none ↦ true | some _ ↦ false ]
    || elim x.callback [ none ↦ false | some _ ↦ true ]
    || x.single_threaded
    || awaited s x.outputs

-- Frees what no one waits for, sooner or later: an instance is passed over as often as its indulgence.
unfoldable pub sweep : State → List ((ℕ × ℕ) × ℕ) → State × List ((ℕ × ℕ) × ℕ)
unfolding in_use modify
sweep s [] = (s, [])
sweep s ((k, i) ∷ rest) = elim (s.heap i) [
  | none ↦ let r = sweep (record s { crashed = true }) rest in (r.0, (k, i) ∷ r.1)
  | some x ↦
      let stay = sweep s rest in
      let again = sweep (modify s i (λ y. record y { indulgence = x.indulgence - 1 })) rest in
      let free = sweep (record s { alive = erase i s.alive; heap = update s.heap i none }) rest in
      if in_use s x
      then (stay.0, (k, i) ∷ stay.1)
      else if ltb 0 x.indulgence
      then (again.0, (k, i) ∷ again.1)
      else free
]

unfoldable pub free_unused : State → State
unfolding sweep
free_unused s =
    let r = sweep s s.instances in
    record (r.0) {
      instances = r.1;
      history = if ltb 65535 (length s.history) then [] else s.history;
    }

-- What follows a turn.
unfoldable pub maintain_turn : State → State
unfolding free_unused
maintain_turn s =
    let t = record s { tick = (s.tick + 1) % 18446744073709551616; constructed = false } in
    if s.constructed then free_unused t else t
