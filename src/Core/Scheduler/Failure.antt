-- ===== src/Core/Scheduler/Failure.antt =====
-- A frame that fails takes with it the frames that need it, and each that waits is told.
pub mod Kill
use cat_syn.Prelude.{
  ℕ, zero, suc, ◌+◌, ◌-◌, ◌/◌, ◌%◌, ◌≤◌, ◌<◌, ◌≡◌, ◌≢◌, ◌∙◌, ap, sym, refl, subst, Bool, true,
  false, not, ◌&&◌, Option, none, some, List, [], ◌∷◌, ◌++◌, arith, All, ltb, ◌==◌, if◌then◌else◌,
  Bool-cases, Option-cases, List-cases, inl, inr, ◌⊎◌,
}
use cat_syn.Core.Scheduler.{
  FrameInstance, CallbackTask, State, update, contains, erase, modify, post_callback,
}
use cat_syn.Core.Scheduler.Maintain.{give_callback, kill_outputs, kill_tree}

abbrev pub Heap : Type 0
Heap = ℕ → Option FrameInstance

unfoldable pub outputs_of : Heap → ℕ → List ℕ
outputs_of h i = elim (h i) [ none ↦ [] | some x ↦ x.outputs ]

unfoldable pub callback_of : Heap → ℕ → Option ℕ
callback_of h i = elim (h i) [ none ↦ none | some x ↦ x.callback ]

abbrev pub Has : CallbackTask → List CallbackTask → Type 0
Has q [] = ⊥
Has q (x ∷ xs) = (x ≡ q) ⊎ Has q xs

-- The callback gets no frame, and the exception.
abbrev pub told_of : ℕ → ℕ → CallbackTask
told_of callback exc = record { callback = callback; frame = none; exc = some exc }

-- Instances die, none that died lives again, and a callback is kept by an instance that is as alive as it
-- was, or is told.
pub record Killed (exc : ℕ) (s t : State) : Type 0 where
  pub outputs : (j : ℕ) → outputs_of t.heap j ≡ outputs_of s.heap j
  pub dead : (j : ℕ) → contains j s.alive ≡ false → contains j t.alive ≡ false
  pub posted : (q : CallbackTask) → Has q s.callback_queue → Has q t.callback_queue
  pub told :
      (j callback : ℕ)
      → callback_of s.heap j ≡ some callback
      → ((callback_of t.heap j ≡ some callback) × (contains j t.alive ≡ contains j s.alive))
        ⊎ Has (told_of callback exc) t.callback_queue

pub Killed-refl : (exc : ℕ) (s : State) → Killed exc s s
Killed-refl exc s = record {
  outputs = λ j. refl;
  dead = λ j e. e;
  posted = λ q h. h;
  told = λ j callback e. inl (e, refl);
}

pub Killed-trans : (exc : ℕ) (s t u : State) → Killed exc s t → Killed exc t u → Killed exc s u
Killed-trans exc s t u a b = record {
  outputs = λ j. b.outputs j ∙ a.outputs j;
  dead = λ j e. b.dead j (a.dead j e);
  posted = λ q h. b.posted q (a.posted q h);
  told = λ j callback e. elim (a.told j callback e) [
    | inr h ↦ inr (b.posted (told_of callback exc) h)
    | inl (kept, same) ↦ elim (b.told j callback kept) [
      | inr h ↦ inr h
      | inl (still, same_too) ↦ inl (still, same_too ∙ same)
    ]
  ];
}

Has-append : (q : CallbackTask) (xs ys : List CallbackTask) → Has q xs → Has q (xs ++ ys)
Has-append q [] ys h = absurd h
Has-append q (x ∷ xs) ys (inl e) = inl e
Has-append q (x ∷ xs) ys (inr h) = inr (Has-append q xs ys h)

Has-last : (q : CallbackTask) (xs : List CallbackTask) → Has q (xs ++ q ∷ [])
Has-last q [] = inl refl
Has-last q (x ∷ xs) = inr (Has-last q xs)

pub outputs_of-at :
    (h : Heap) (j : ℕ) {o : Option FrameInstance}
    → h j ≡ o
    → outputs_of h j ≡ elim o [ none ↦ [] | some x ↦ x.outputs ]
unfolding outputs_of
outputs_of-at h j e = rw (e, outputs_of) refl

pub callback_of-at :
    (h : Heap) (j : ℕ) {o : Option FrameInstance}
    → h j ≡ o
    → callback_of h j ≡ elim o [ none ↦ none | some x ↦ x.callback ]
unfolding callback_of
callback_of-at h j e = rw (e, callback_of) refl

update_self : (h : Heap) (i j : ℕ) (v : Option FrameInstance) → i ≡ j → update h i v j ≡ v
update_self h i j v w = rw w (ground arith)

update_other :
    (h : Heap) (i j : ℕ) (v : Option FrameInstance) → i == j ≡ false → update h i v j ≡ h j
update_other h i j v w = rw w refl

-- The callback of the instance itself is posted.
abbrev tell : State → ℕ → FrameInstance → ℕ → ℕ → State
tell s i x own exc = record s {
  heap = update s.heap i (some (record x { callback = none }));
  callback_queue = s.callback_queue ++ told_of own exc ∷ [];
}

tell-Killed :
    (s : State) (i : ℕ) (x : FrameInstance) (own exc : ℕ)
    → s.heap i ≡ some x
    → x.callback ≡ some own
    → Killed exc s (tell s i x own exc)
tell-Killed s i x own exc e c =
    let y = record x { callback = none } in
    let g = update s.heap i (some y) in
    record {
      outputs = λ j. elim (Bool-cases (i == j)) [
        | inl same ↦
            let w : i ≡ j = ground arith in
            outputs_of-at g j (update_self s.heap i j (some y) w)
            ∙ sym (outputs_of-at s.heap j (ap s.heap (sym w) ∙ e))
        | inr other ↦
            outputs_of-at g j (update_other s.heap i j (some y) other)
            ∙ sym (outputs_of-at s.heap j refl)
      ];
      dead = λ j h. h;
      posted = λ q h. Has-append q s.callback_queue _ h;
      told = λ j callback h. elim (Bool-cases (i == j)) [
        | inl same ↦
            let w : i ≡ j = ground arith in
            let z : x.callback ≡ some callback =
              sym (callback_of-at s.heap j (ap s.heap (sym w) ∙ e)) ∙ h in
            let v : own ≡ callback = cc in
            inr (
              subst (λ k. Has (told_of k exc) (tell s i x own exc).callback_queue) (v)
                (Has-last (told_of own exc) s.callback_queue))
        | inr other ↦ inl (
          callback_of-at g j (update_other s.heap i j (some y) other)
              ∙ sym (callback_of-at s.heap j refl)
              ∙ h,
          refl,
        )
      ];
    }

pub record Given (exc i : ℕ) (x : FrameInstance) (s t : State) : Type 0 where
  pub killed : Killed exc s t
  pub own :
      (callback : ℕ) → x.callback ≡ some callback → Has (told_of callback exc) t.callback_queue
  pub alive : t.alive ≡ s.alive

pub give_callback-Given :
    (s : State) (i exc : ℕ) (x : FrameInstance)
    → s.heap i ≡ some x
    → Given exc i x s (give_callback s i x none (some exc))
unfolding give_callback post_callback modify
give_callback-Given s i exc x e = elim (Option-cases x.callback) [
  | inl c ↦
      rw (c, give_callback)
        (record { killed = Killed-refl exc s; own = λ callback h. cc; alive = refl })
  | inr (own, c) ↦
      let r : Given exc i x s (tell s i x own exc) = record {
        killed = tell-Killed s i x own exc e c;
        own = λ callback h.
            let v : own ≡ callback = cc in
            subst (λ k. Has (told_of k exc) (tell s i x own exc).callback_queue) (v)
              (Has-last (told_of own exc) s.callback_queue);
        alive = refl;
      } in
      let same : give_callback s i x none (some exc) ≡ tell s i x own exc =
        rw (c, give_callback, e, modify) refl in
      subst (Given exc i x s) (sym same) r
]
