-- ===== src/Core/Scheduler/Total.antt =====
-- The maintainer makes an instance for every frame that is wanted.
use cat_syn.Prelude.{
  ℕ, zero, suc, ◌+◌, ◌<◌, ◌≡◌, ◌∙◌, ap, refl, Bool, Option, none, some, List, [], ◌∷◌, arith, All,
  Bool-cases, Option-cases, inl, inr,
}
use cat_syn.Core.Scheduler.{
  World, FrameInstance, State, update, modify, find_instance, check_all_inputs_ready,
  post_work_direct, post_callback, post_work,
}
use cat_syn.Core.Scheduler.Construct.{
  add_output, meet, remember, construct_inputs, linear_input, place, complete, construct_frame,
}

-- A rank that falls from a frame to each frame that it needs.
abbrev pub Falls : World → (ℕ × ℕ → ℕ) → Type 0
Falls w rank =
    (sub idx : ℕ) → All (λ dep. rank dep < rank (sub, idx)) ((w.filter sub).get_frame_data idx)

abbrev Rec : Type 0
Rec = State → ℕ × ℕ → Bool → Option (ℕ × State)

construct_inputs_total :
    (rec : Rec) (i : ℕ) (missed : Bool) (deps : List (ℕ × ℕ)) (s : State)
    → All (λ dep. (t : State) → (j : ℕ) × (u : State) × (rec t dep missed ≡ some (j, u))) deps
    → (inputs : List ℕ) × (t : State) × (construct_inputs rec i missed deps s ≡ some (inputs, t))
unfolding construct_inputs
construct_inputs_total rec i missed [] s a = ([], s, refl)
construct_inputs_total rec i missed (dep ∷ deps) s a =
    let (j, u, e) = a.0 s in
    let (inputs, t, f) = construct_inputs_total rec i missed deps (modify u j (add_output i)) a.1 in
    (j ∷ inputs, t, rw (e, construct_inputs, f) refl)

All-mono :
    (P Q : ℕ × ℕ → Type 0) (xs : List (ℕ × ℕ)) → ((x : ℕ × ℕ) → P x → Q x) → All P xs → All Q xs
All-mono P Q [] f a = tt
All-mono P Q (x ∷ xs) f a = (f x a.0, All-mono P Q xs f a.1)

find-here :
    (sub idx i : ℕ) (rest : List ((ℕ × ℕ) × ℕ))
    → find_instance (((sub, idx), i) ∷ rest) (sub, idx) ≡ some i
unfolding find_instance
find-here sub idx i rest = ground arith

modify-instances :
    (s : State) (i : ℕ) (f : FrameInstance → FrameInstance) → (modify s i f).instances ≡ s.instances
unfolding modify
modify-instances s i f = elim (Option-cases (s.heap i)) [
  | inl e ↦ rw (e, modify) refl
  | inr (x, e) ↦ rw (e, modify) refl
]

post_work-instances : (s : State) (i : ℕ) → (post_work s i).instances ≡ s.instances
unfolding post_work post_work_direct
post_work-instances s i = elim (Option-cases (s.heap i)) [
  | inl e ↦ rw (e, post_work) refl
  | inr (x, e) ↦ elim (Bool-cases x.single_threaded) [
    | inl one ↦ rw (e, post_work, one) refl
    | inr many ↦ rw (e, post_work, many) refl
  ]
]

meet-instances :
    (s : State) (i : ℕ) (callback : Option ℕ) → (meet s i callback).instances ≡ s.instances
unfolding meet post_callback
meet-instances s i none = refl
meet-instances s i (some callback) = elim (Option-cases (s.heap i)) [
  | inl e ↦ rw (e, meet) refl
  | inr (x, e) ↦ elim (Option-cases x.product) [
    | inl c ↦ rw (e, meet, c) (modify-instances s i _)
    | inr (p, c) ↦ rw (e, meet, c) refl
  ]
]

place-instances :
    (w : World) (s : State) (i : ℕ) (key : ℕ × ℕ) (inst : FrameInstance)
    → (place w s i key inst).instances ≡ (key, i) ∷ s.instances
unfolding place
place-instances w s i key inst =
    let t = record s {
      heap = update s.heap i (some inst);
      instances = (key, i) ∷ s.instances;
      alive = i ∷ s.alive;
    } in
    elim (Bool-cases (check_all_inputs_ready (update s.heap i (some inst)) i)) [
      | inl e ↦ rw e (post_work-instances t i)
      | inr e ↦ rw e refl
    ]

place-find :
    (w : World) (s : State) (i sub idx : ℕ) (inst : FrameInstance)
    → find_instance (place w s i (sub, idx) inst).instances (sub, idx) ≡ some i
place-find w s i sub idx inst =
    ap (λ (l : List ((ℕ × ℕ) × ℕ)). find_instance l (sub, idx))
      (place-instances w s i (sub, idx) inst)
    ∙ find-here sub idx i s.instances

complete-find :
    (w : World) (s : State) (i sub idx : ℕ) (deps : List (ℕ × ℕ)) (inputs : List ℕ)
    (callback : Option ℕ)
    → find_instance (complete w s i (sub, idx) deps inputs callback).instances (sub, idx) ≡ some i
unfolding complete
complete-find w s i sub idx deps inputs callback =
    elim (Option-cases (linear_input w s (sub, idx))) [
      | inl e ↦ rw (e, complete) (place-find w s i sub idx _)
      | inr (p, e) ↦ rw (e, complete) (place-find w (modify s p (add_output i)) i sub idx _)
    ]

-- Where the frames that a frame needs fall in some rank, `construct` ends: with more fuel than the
-- rank it returns an instance, and that is the one which the table then has for the frame.
pub construct_frame_total :
    (w : World) (rank : ℕ × ℕ → ℕ) (fuel : ℕ) (s : State) (sub idx : ℕ) (callback : Option ℕ)
    (missed : Bool)
    → Falls w rank
    → rank (sub, idx) < fuel
    → (i : ℕ) × (t : State) × (construct_frame w fuel s (sub, idx) callback missed ≡ some (i, t))
      × (find_instance t.instances (sub, idx) ≡ some i)
unfolding construct_frame
construct_frame_total w rank zero s sub idx callback missed falls lt = absurd (omega arith)
construct_frame_total w rank (suc fuel) s sub idx callback missed falls lt =
    elim (Option-cases (find_instance s.instances (sub, idx))) [
      | inr (found, e) ↦ (
        found,
        meet s found callback,
        rw (e, construct_frame) refl,
        rw (meet-instances s found callback) e,
      )
      | inl e ↦
          let again = remember s (sub, idx) missed in
          let v = again.1 in
          let deps = (w.filter sub).get_frame_data idx in
          let rec : Rec = λ u dep m. construct_frame w fuel u dep none m in
          let (inputs, u, c) =
            construct_inputs_total rec v.next again.0 deps (record v { next = v.next + 1 })
              (All-mono _ _ deps
                (λ dep low t.
                  let (j, x, d, _) =
                    construct_frame_total w rank fuel t dep.0 dep.1 none again.0 falls
                      (omega arith) in
                  (j, x, d))
                (falls sub idx)) in
          (
            v.next,
            complete w u v.next (sub, idx) deps inputs callback,
            rw (e, construct_frame, c) refl,
            complete-find w u v.next sub idx deps inputs callback,
          )
    ]
