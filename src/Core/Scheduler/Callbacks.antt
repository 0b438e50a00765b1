-- ===== src/Core/Scheduler/Callbacks.antt =====
-- When a callback is posted, and when it is not.
use cat_syn.Prelude.{
  ℕ, ◌≡◌, ◌∙◌, ap, refl, Bool, true, false, not, ◌&&◌, Option, none, some, List, [], ◌∷◌, ◌++◌,
  arith, if◌then◌else◌, Bool-cases, Option-cases, inl, inr,
}
use cat_syn.Core.Scheduler.{
  FrameInstance, CallbackTask, State, update, contains, modify, has_product, check_all_inputs_ready,
  post_callback, post_work_direct, post_work,
}
use cat_syn.Core.Scheduler.Maintain.{
  post_outputs, neck_release, release, give_callback, maintain_notify,
}
use cat_syn.Core.Scheduler.Failure.{callback_of}

callback_of-modify :
    (s : State) (i : ℕ) (c : Option ℕ) (x : FrameInstance)
    → s.heap i ≡ some x
    → callback_of (modify s i (λ y. record y { callback = c })).heap i ≡ c
unfolding callback_of modify
callback_of-modify s i c x e =
    let same : update s.heap i (some (record x { callback = c })) i
        ≡ some (record x { callback = c }) =
      ground arith in
    rw (e, modify, same, callback_of) refl

modify-queue :
    (s : State) (i : ℕ) (f : FrameInstance → FrameInstance)
    → (modify s i f).callback_queue ≡ s.callback_queue
unfolding modify
modify-queue s i f = elim (Option-cases (s.heap i)) [
  | inl e ↦ rw (e, modify) refl
  | inr (x, e) ↦ rw (e, modify) refl
]

post_work-queue : (s : State) (i : ℕ) → (post_work s i).callback_queue ≡ s.callback_queue
unfolding post_work post_work_direct
post_work-queue s i = elim (Option-cases (s.heap i)) [
  | inl e ↦ rw (e, post_work) refl
  | inr (x, e) ↦ elim (Bool-cases x.single_threaded) [
    | inl one ↦ rw (e, post_work, one) refl
    | inr many ↦ rw (e, post_work, many) refl
  ]
]

post_work-heap : (s : State) (i : ℕ) → (post_work s i).heap ≡ s.heap
unfolding post_work post_work_direct
post_work-heap s i = elim (Option-cases (s.heap i)) [
  | inl e ↦ rw (e, post_work) refl
  | inr (x, e) ↦ elim (Bool-cases x.single_threaded) [
    | inl one ↦ rw (e, post_work, one) refl
    | inr many ↦ rw (e, post_work, many) refl
  ]
]

post_outputs_lem :
    (s : State) (os : List ℕ)
    → ((post_outputs s os).callback_queue ≡ s.callback_queue) × ((post_outputs s os).heap ≡ s.heap)
unfolding post_outputs
post_outputs_lem s [] = (refl, refl)
post_outputs_lem s (o ∷ os) =
    elim (Bool-cases
      (contains o s.alive && not (has_product s.heap o) && check_all_inputs_ready s.heap o)) [
        | inl e ↦
            let (a, b) = post_outputs_lem (post_work s o) os in
            rw (e, post_outputs) (a ∙ post_work-queue s o, b ∙ post_work-heap s o)
        | inr e ↦ rw (e, post_outputs) (post_outputs_lem s os)
      ]

release-queue :
    (s : State) (i : ℕ) (x : FrameInstance) → (release s i x).callback_queue ≡ s.callback_queue
unfolding release
release-queue s i x = elim (Bool-cases x.single_threaded) [
  | inl e ↦ rw e (
      modify-queue (record s { neck = neck_release s.neck x.substrate i }) i
        (λ y. record y { single_threaded = false }))
  | inr e ↦ rw e refl
]

-- The callback is moved out of an instance as it is posted.
callback_of-moved :
    (s : State) (i : ℕ) → callback_of (modify s i (λ y. record y { callback = none })).heap i ≡ none
unfolding callback_of modify
callback_of-moved s i = elim (Option-cases (s.heap i)) [
  | inl e ↦ rw (e, modify, callback_of) (rw e refl)
  | inr (x, e) ↦ callback_of-modify s i none x e
]

give_callback-some :
    (s : State) (i : ℕ) (x : FrameInstance) (callback : ℕ) (frame exc : Option ℕ)
    → x.callback ≡ some callback
    → give_callback s i x frame exc
      ≡ post_callback (modify s i (λ y. record y { callback = none })) callback frame exc
unfolding give_callback
give_callback-some s i x callback frame exc e = rw (e, give_callback) refl

maintain_notify-alive :
    (fuel : ℕ) (s : State) (i : ℕ) (x : FrameInstance)
    → contains i s.alive ≡ true
    → s.heap i ≡ some x
    → maintain_notify fuel s i none
      ≡ some (give_callback (post_outputs (release s i x) x.outputs) i x x.product none)
unfolding maintain_notify
maintain_notify-alive fuel s i x lives there =
    let told : Option FrameInstance → Option State = λ o. elim o [
      | none ↦ some (record s { crashed = true })
      | some y ↦ some (give_callback (post_outputs (release s i y) y.outputs) i y y.product none)
    ] in
    ap (λ (b : Bool). if b then told (s.heap i) else some s) lives ∙ ap told there

-- The report, without an exception, of an instance that is alive and has a callback posts that
-- callback, with the product of the instance and no exception; no other callback is posted, and the
-- instance has none after it.
pub maintain_notify-finished :
    (fuel : ℕ) (s : State) (i callback : ℕ) (x : FrameInstance)
    → contains i s.alive ≡ true
    → s.heap i ≡ some x
    → x.callback ≡ some callback
    → (t : State) × (maintain_notify fuel s i none ≡ some t)
      × (t.callback_queue
          ≡ s.callback_queue ++ record { callback = callback; frame = x.product; exc = none } ∷ [])
      × (callback_of t.heap i ≡ none)
unfolding post_callback
maintain_notify-finished fuel s i callback x lives there waits =
    let u = post_outputs (release s i x) x.outputs in
    let v = modify u i (λ y. record y { callback = none }) in
    let q : CallbackTask = record { callback = callback; frame = x.product; exc = none } in
    let t = post_callback v callback x.product none in
    let given : give_callback u i x x.product none ≡ t =
      give_callback-some u i x callback x.product none waits in
    let same : v.callback_queue ≡ s.callback_queue =
      modify-queue u i (λ y. record y { callback = none })
      ∙ (post_outputs_lem (release s i x) x.outputs).0
      ∙ release-queue s i x in
    (
      t,
      maintain_notify-alive fuel s i x lives there ∙ ap some given,
      rw same refl,
      callback_of-moved u i,
    )
