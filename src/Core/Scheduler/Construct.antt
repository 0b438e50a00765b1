-- ===== src/Core/Scheduler/Construct.antt =====
-- `construct` of CatSyn/src/substrate.cpp: the instance for a frame, made with all that it needs where
-- it is not there. The recursion has fuel; `none` is that it ran out.
use cat_syn.Prelude.{
  ℕ, zero, suc, ◌+◌, ◌-◌, ◌/◌, ◌%◌, Bool, true, false, not, ◌&&◌, Option, none, some, List, [], ◌∷◌,
  ◌++◌, ltb, if◌then◌else◌,
}
use cat_syn.Core.Scheduler.{
  World, FrameInstance, State, update, find_instance, same_key, modify, check_all_inputs_ready,
  post_callback, post_work,
}

abbrev pub add_output : ℕ → FrameInstance → FrameInstance
add_output i x = record x { outputs = x.outputs ++ i ∷ [] }

abbrev pub in_history : List (ℕ × ℕ) → ℕ × ℕ → Bool
in_history [] key = false
in_history (k ∷ ks) key = if same_key k key then true else in_history ks key

-- An instance that is there: the callback gets the product, or waits for it in place of the one that
-- waited before.
unfoldable pub meet : State → ℕ → Option ℕ → State
unfolding modify post_callback
meet s i none = s
meet s i (some callback) = elim (s.heap i) [
  | none ↦ s
  | some x ↦ elim x.product [
    | some product ↦ post_callback s callback (some product) none
    | none ↦ modify s i (λ y. record y { callback = some callback })
  ]
]

-- A frame that was made before and is wanted again is missed: counted, once for the whole tree.
unfoldable pub remember : State → ℕ × ℕ → Bool → Bool × State
remember s (sub, idx) missed =
    if in_history s.history (sub, idx) && not missed
    then (
      true,
      record s {
        miss =
            update s.miss sub
              (some (elim (s.miss sub) [ none ↦ 1 | some n ↦ (n + 1) % 4294967296 ]));
      },
    )
    else (
      missed,
      record s {
        history = if in_history s.history (sub, idx) then s.history else (sub, idx) ∷ s.history;
      },
    )

-- The instances for the frames that `i` needs, each told of `i` as it is there.
unfoldable pub construct_inputs :
    (State → ℕ × ℕ → Bool → Option (ℕ × State))
    → ℕ
    → Bool
    → List (ℕ × ℕ)
    → State
    → Option (List ℕ × State)
unfolding modify
construct_inputs rec i missed [] s = some ([], s)
construct_inputs rec i missed (dep ∷ deps) s = elim (rec s dep missed) [
  | none ↦ none
  | some (input, t) ↦ elim (construct_inputs rec i missed deps (modify t input (add_output i))) [
    | none ↦ none
    | some (inputs, u) ↦ some (input ∷ inputs, u)
  ]
]

-- The frame before, where the filter wants its frames in order and that one is there.
unfoldable pub linear_input : World → State → ℕ × ℕ → Option ℕ
unfolding find_instance
linear_input w s (sub, idx) =
    if (w.filter sub).make_linear && ltb 0 idx
    then find_instance s.instances (sub, idx - 1)
    else none

-- The new instance takes its place.
unfoldable pub place : World → State → ℕ → ℕ × ℕ → FrameInstance → State
unfolding check_all_inputs_ready post_work
place w s i key inst =
    let t = record s {
      heap = update s.heap i (some inst);
      instances = (key, i) ∷ s.instances;
      alive = i ∷ s.alive;
    } in
    if check_all_inputs_ready t.heap i then post_work t i else t

unfoldable pub complete : World → State → ℕ → ℕ × ℕ → List (ℕ × ℕ) → List ℕ → Option ℕ → State
unfolding linear_input modify place
complete w s i (sub, idx) deps inputs callback =
    let linear = linear_input w s (sub, idx) in
    let inst : FrameInstance = record {
      substrate = sub;
      product = none;
      inputs = inputs ++ elim linear [ none ↦ [] | some p ↦ p ∷ [] ];
      outputs = [];
      callback = callback;
      frame_data = deps;
      tick = s.tick;
      taken = false;
      false_dep = elim linear [ none ↦ false | some _ ↦ true ];
      single_threaded = (w.filter sub).single_threaded;
      indulgence = elim (s.miss sub) [ none ↦ 0 | some n ↦ n / 8 ];
    } in
    let t = elim linear as (λ _. State) [ none ↦ s | some p ↦ modify s p (add_output i) ] in
    place w t i (sub, idx) inst

unfoldable pub construct_frame : World → ℕ → State → ℕ × ℕ → Option ℕ → Bool → Option (ℕ × State)
unfolding find_instance meet remember construct_inputs complete
construct_frame w zero s key callback missed = none
construct_frame w (suc fuel) s (sub, idx) callback missed =
    elim (find_instance s.instances (sub, idx)) [
      | some i ↦ some (i, meet s i callback)
      | none ↦
          let again = remember s (sub, idx) missed in
          let deps = (w.filter sub).get_frame_data idx in
          let i = again.1.next in
          let rec = λ (t : State) (dep : ℕ × ℕ) (m : Bool). construct_frame w fuel t dep none m in
          elim (construct_inputs rec i again.0 deps (record (again.1) { next = i + 1 })) [
            | none ↦ none
            | some (inputs, t) ↦ some (i, complete w t i (sub, idx) deps inputs callback)
          ]
    ]
