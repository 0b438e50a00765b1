-- ===== src/Core/Scheduler/Failure/Kill.antt =====
-- `kill_tree` ends, and tells every callback.
use cat_syn.Prelude.{
  ℕ, zero, suc, ◌<◌, ◌≡◌, ◌∙◌, ap, sym, refl, subst, true, false, Option, none, some, List, [], ◌∷◌,
  arith, All, ◌==◌, if◌then◌else◌, Bool-cases, Option-cases, inl, inr,
}
use cat_syn.Core.Scheduler.{State, contains, erase}
use cat_syn.Core.Scheduler.Maintain.{give_callback, kill_outputs, kill_tree}
use cat_syn.Core.Scheduler.Failure.{
  Heap, outputs_of, callback_of, Has, told_of, Killed, Killed-refl, Killed-trans, outputs_of-at,
  callback_of-at, give_callback-Given,
}

-- A rank that falls along the outputs.
abbrev pub Acyclic : (ℕ → ℕ) → Heap → Type 0
Acyclic rank h = (j : ℕ) → All (λ o. rank o < rank j) (outputs_of h j)

Acyclic-Killed :
    (rank : ℕ → ℕ) (exc : ℕ) (s t : State)
    → Killed exc s t
    → Acyclic rank s.heap
    → Acyclic rank t.heap
Acyclic-Killed rank exc s t k a = λ j. subst (All (λ o. rank o < rank j)) (sym (k.outputs j)) (a j)

record Ends (exc : ℕ) (os : List ℕ) (s : State) (r : Option State) : Type 0 where
  result : State
  returns : r ≡ some result
  killed : Killed exc s result
  gone : All (λ o. contains o result.alive ≡ false) os

All-dead :
    (exc : ℕ) (os : List ℕ) (s t : State)
    → Killed exc s t
    → All (λ o. contains o s.alive ≡ false) os
    → All (λ o. contains o t.alive ≡ false) os
All-dead exc [] s t k a = tt
All-dead exc (o ∷ os) s t k a = (k.dead o a.0, All-dead exc os s t k a.1)

kill_outputs-Ends :
    (rank : ℕ → ℕ) (rec : State → ℕ → Option State) (exc : ℕ) (os : List ℕ) (s : State)
    → All (λ o. (u : State) → Acyclic rank u.heap → Ends exc (o ∷ []) u (rec u o)) os
    → Acyclic rank s.heap
    → Ends exc os s (kill_outputs rec os s)
unfolding kill_outputs
kill_outputs-Ends rank rec exc [] s a acyclic = record {
  result = s;
  returns = refl;
  killed = Killed-refl exc s;
  gone = tt;
}
kill_outputs-Ends rank rec exc (o ∷ os) s a acyclic = elim (Bool-cases (contains o s.alive)) [
  | inr e ↦
      let r = kill_outputs-Ends rank rec exc os s a.1 acyclic in
      record {
        result = r.result;
        returns = rw (kill_outputs, e) r.returns;
        killed = r.killed;
        gone = (r.killed.dead o e, r.gone);
      }
  | inl e ↦
      let q = a.0 s acyclic in
      let r =
        kill_outputs-Ends rank rec exc os q.result a.1
          (Acyclic-Killed rank exc s q.result q.killed acyclic) in
      record {
        result = r.result;
        returns = rw (kill_outputs, e, q.returns) r.returns;
        killed = Killed-trans exc s q.result r.result q.killed r.killed;
        gone = (r.killed.dead o q.gone.0, r.gone);
      }
]

contains-erase :
    (i j : ℕ) (xs : List ℕ) → contains j (erase i xs) ≡ (if i == j then false else contains j xs)
contains-erase i j [] = ground arith
contains-erase i j (x ∷ xs) = ground (arith, contains-erase i j xs)

-- The instance itself dies last.
erase-Killed :
    (exc i : ℕ) (s v : State)
    → Killed exc s v
    → ((callback : ℕ)
        → callback_of s.heap i ≡ some callback
        → Has (told_of callback exc) v.callback_queue)
    → Killed exc s (record v { alive = erase i v.alive })
erase-Killed exc i s v k own = record {
  outputs = k.outputs;
  dead = λ j h. ground (arith, contains-erase i j v.alive, k.dead j h);
  posted = k.posted;
  told = λ j callback h. elim (Bool-cases (i == j)) [
    | inl same ↦
        let w : j ≡ i = ground arith in inr (own callback (ap (callback_of s.heap) (sym w) ∙ h))
    | inr other ↦ elim (k.told j callback h) [
      | inr posted ↦ inr posted
      | inl (kept, alike) ↦ inl (kept, ground (arith, contains-erase i j v.alive))
    ]
  ];
}

gone-erase :
    (i : ℕ) (os alive : List ℕ)
    → All (λ o. contains o alive ≡ false) os
    → All (λ o. contains o (erase i alive) ≡ false) os
gone-erase i [] alive a = tt
gone-erase i (o ∷ os) alive a =
    (ground (arith, contains-erase i o alive, a.0), gone-erase i os alive a.1)

each_Ends :
    (rank : ℕ → ℕ) (rec : State → ℕ → Option State) (exc fuel : ℕ) (os : List ℕ)
    → ((u : State) (o : ℕ) → Acyclic rank u.heap → rank o < fuel → Ends exc (o ∷ []) u (rec u o))
    → All (λ o. rank o < fuel) os
    → All (λ o. (u : State) → Acyclic rank u.heap → Ends exc (o ∷ []) u (rec u o)) os
each_Ends rank rec exc fuel [] f a = tt
each_Ends rank rec exc fuel (o ∷ os) f a =
    (λ u acyclic. f u o acyclic a.0, each_Ends rank rec exc fuel os f a.1)

All-lower :
    (rank : ℕ → ℕ) (n fuel : ℕ) (os : List ℕ)
    → n < suc fuel
    → All (λ o. rank o < n) os
    → All (λ o. rank o < fuel) os
All-lower rank n fuel [] lt a = tt
All-lower rank n fuel (o ∷ os) lt a = (omega (arith, a.0), All-lower rank n fuel os lt a.1)

kill_tree-Ends :
    (rank : ℕ → ℕ) (fuel : ℕ) (s : State) (i exc : ℕ)
    → Acyclic rank s.heap
    → rank i < fuel
    → Ends exc (i ∷ outputs_of s.heap i) s (kill_tree fuel s i exc)
unfolding kill_tree
kill_tree-Ends rank zero s i exc acyclic lt = absurd (omega arith)
kill_tree-Ends rank (suc fuel) s i exc acyclic lt = elim (Option-cases (s.heap i)) [
  | inl e ↦
      let none_out : [] ≡ outputs_of s.heap i = sym (outputs_of-at s.heap i e) in
      record {
        result = record s { alive = erase i s.alive };
        returns = rw (e, kill_tree) refl;
        killed =
            erase-Killed exc i s s (Killed-refl exc s)
              (λ callback h. absurd (let z = sym (callback_of-at s.heap i e) ∙ h in cc));
        gone = (
          ground (arith, contains-erase i i s.alive),
          subst (All (λ o. contains o (erase i s.alive) ≡ false)) (none_out) tt,
        );
      }
  | inr (x, e) ↦
      let outs : x.outputs ≡ outputs_of s.heap i = sym (outputs_of-at s.heap i e) in
      let u = give_callback s i x none (some exc) in
      let g = give_callback-Given s i exc x e in
      let rec : State → ℕ → Option State = λ v o. kill_tree fuel v o exc in
      let low =
        All-lower rank (rank i) fuel x.outputs lt
          (subst (All (λ o. rank o < rank i)) (sym outs) (acyclic i)) in
      let each =
        each_Ends rank rec exc fuel x.outputs
          (λ v o a h.
            let r = kill_tree-Ends rank fuel v o exc a h in
            record {
              result = r.result;
              returns = r.returns;
              killed = r.killed;
              gone = (r.gone.0, tt);
            })
          low in
      let r =
        kill_outputs-Ends rank rec exc x.outputs u each
          (Acyclic-Killed rank exc s u g.killed acyclic) in
      let v = r.result in
      record {
        result = record v { alive = erase i v.alive };
        returns = rw (e, kill_tree, r.returns) refl;
        killed = erase-Killed exc i s v (Killed-trans exc s u v g.killed r.killed) (λ callback h.
            r.killed.posted (told_of callback exc)
              (g.own callback (sym (callback_of-at s.heap i e) ∙ h)));
        gone = (
          ground (arith, contains-erase i i v.alive),
          subst (All (λ o. contains o (erase i v.alive) ≡ false)) (outs)
              (gone-erase i x.outputs v.alive r.gone),
        );
      }
]

-- Where the outputs fall in some rank, and the fuel is more than the rank of the instance that failed,
-- `kill_tree` ends. That instance and its outputs are then dead, none that was dead lives, and the
-- callback of every instance that has died is posted, with no frame and the exception.
pub kill_tree_lem :
    (rank : ℕ → ℕ) (fuel : ℕ) (s : State) (i exc : ℕ)
    → Acyclic rank s.heap
    → rank i < fuel
    → (t : State) × (kill_tree fuel s i exc ≡ some t)
      × (contains i t.alive ≡ false)
      × All (λ o. contains o t.alive ≡ false) (outputs_of s.heap i)
      × ((j : ℕ) → contains j s.alive ≡ false → contains j t.alive ≡ false)
      × ((j callback : ℕ)
          → callback_of s.heap j ≡ some callback
          → contains j s.alive ≡ true
          → contains j t.alive ≡ false
          → Has (told_of callback exc) t.callback_queue)
kill_tree_lem rank fuel s i exc acyclic lt =
    let r = kill_tree-Ends rank fuel s i exc acyclic lt in
    (
      r.result,
      r.returns,
      r.gone.0,
      r.gone.1,
      r.killed.dead,
      λ j callback h lived died. elim (r.killed.told j callback h) [
        | inr posted ↦ posted
        | inl (kept, alike) ↦ absurd (let z = sym died ∙ alike ∙ lived in cc)
      ],
    )
