-- ===== src/Core/Scheduler/Sweep.antt =====
-- What the maintainer frees after a turn in which a frame was asked for.
use cat_syn.Prelude.{
  ℕ, ◌-◌, ◌≡◌, ◌∙◌, ap, sym, refl, Bool, true, false, not, ◌&&◌, Option, none, some, List, [], ◌∷◌,
  arith, subst, All, ltb, ◌==◌, Bool-cases, Option-cases, ◌⊎◌, inl, inr,
}
use cat_syn.Core.Scheduler.{FrameInstance, State, update, contains, erase, modify, has_product}
use cat_syn.Core.Scheduler.Maintain.{awaited, in_use, sweep, free_unused}

-- An output that is alive and has no product yet.
abbrev waits : State → ℕ → Bool
waits s o = contains o s.alive && not (has_product s.heap o)

contains-erase : (i : ℕ) (xs : List ℕ) → contains i (erase i xs) ≡ false
contains-erase i [] = refl
contains-erase i (x ∷ xs) = ground (arith, contains-erase i xs)

contains-erase_other :
    (i j : ℕ) (xs : List ℕ) → (i == j) ≡ false → contains j (erase i xs) ≡ contains j xs
contains-erase_other i j [] h = refl
contains-erase_other i j (x ∷ xs) h = ground (arith, contains-erase_other i j xs h)

-- An instance is as it was, but for its indulgence.
record Same (x y : FrameInstance) : Type 0 where
  product : y.product ≡ x.product
  callback : y.callback ≡ x.callback
  single_threaded : y.single_threaded ≡ x.single_threaded
  outputs : y.outputs ≡ x.outputs

abbrev Freed : State → State → ℕ → FrameInstance → Type 0
Freed s t i x = (t.heap i ≡ none) × (contains i t.alive ≡ false) × (in_use s x ≡ false)

-- From s on only what is not in use was freed.
record Swept (s t : State) : Type 0 where
  waiting : (o : ℕ) → waits t o ≡ waits s o
  dead : (i : ℕ) → contains i s.alive ≡ false → contains i t.alive ≡ false
  gone : (i : ℕ) → s.heap i ≡ none → t.heap i ≡ none
  each :
      (i : ℕ) (x : FrameInstance)
      → s.heap i ≡ some x
      → Freed s t i x ⊎ ((y : FrameInstance) × (t.heap i ≡ some y) × Same x y)

awaited-waits :
    (s t : State) (os : List ℕ) → ((o : ℕ) → waits t o ≡ waits s o) → awaited t os ≡ awaited s os
unfolding awaited
awaited-waits s t [] h = refl
awaited-waits s t (o ∷ os) h = rw (h o, awaited-waits s t os h) refl

in_use-Same :
    (s t : State) (x y : FrameInstance)
    → ((o : ℕ) → waits t o ≡ waits s o)
    → Same x y
    → in_use t y ≡ in_use s x
unfolding in_use
in_use-Same s t x y h k =
    rw (k.product, k.callback, k.single_threaded, k.outputs, awaited-waits s t x.outputs h) refl

Swept-refl : (s : State) → Swept s s
Swept-refl s = record {
  waiting = λ o. refl;
  dead = λ i h. h;
  gone = λ i e. e;
  each = λ i x e.
      inr
        (x, e, record { product = refl; callback = refl; single_threaded = refl; outputs = refl });
}

Swept-trans : (s u t : State) → Swept s u → Swept u t → Swept s t
Swept-trans s u t a b = record {
  waiting = λ o. b.waiting o ∙ a.waiting o;
  dead = λ i h. b.dead i (a.dead i h);
  gone = λ i e. b.gone i (a.gone i e);
  each = λ i x e. elim (a.each i x e) [
    | inl (n, d, f) ↦ inl (b.gone i n, b.dead i d, f)
    | inr (y, k, m) ↦ elim (b.each i y k) [
      | inl (n, d, f) ↦ inl (n, d, sym (in_use-Same s u x y a.waiting m) ∙ f)
      | inr (z, l, o) ↦ inr (
        z,
        l,
        record {
          product = o.product ∙ m.product;
          callback = o.callback ∙ m.callback;
          single_threaded = o.single_threaded ∙ m.single_threaded;
          outputs = o.outputs ∙ m.outputs;
        },
      )
    ]
  ];
}

same_place : (h : ℕ → Option FrameInstance) (i j : ℕ) → (i == j) ≡ true → h j ≡ h i
same_place h i j e = let k : j ≡ i = ground (arith, e) in ap h k

other_place :
    (h : ℕ → Option FrameInstance) (i j : ℕ) (v : Option FrameInstance)
    → (i == j) ≡ false
    → update h i v j ≡ h j
other_place h i j v e = rw e refl

this_place :
    (h : ℕ → Option FrameInstance) (i j : ℕ) (v : Option FrameInstance)
    → (i == j) ≡ true
    → update h i v j ≡ v
this_place h i j v e = rw e refl

Same-refl : (x : FrameInstance) → Same x x
Same-refl x = record { product = refl; callback = refl; single_threaded = refl; outputs = refl }

has_product-place :
    (h : ℕ → Option FrameInstance) (i : ℕ) (x y : FrameInstance) (o : ℕ)
    → h i ≡ some x
    → Same x y
    → has_product (update h i (some y)) o ≡ has_product h o
unfolding has_product
has_product-place h i x y o e m = elim (Bool-cases (i == o)) [
  | inl t ↦ rw (this_place h i o (some y) t, same_place h i o t, e, m.product, has_product) refl
  | inr t ↦ rw (other_place h i o (some y) t, has_product) refl
]

-- An instance is passed over once more.
indulged-Swept :
    (s : State) (i : ℕ) (x y : FrameInstance)
    → s.heap i ≡ some x
    → Same x y
    → Swept s (record s { heap = update s.heap i (some y) })
indulged-Swept s i x y e m = record {
  waiting = λ o. rw (has_product-place s.heap i x y o e m) refl;
  dead = λ j h. h;
  gone = λ j h. elim (Bool-cases (i == j)) [
    | inl t ↦ absurd (let z = same_place s.heap i j t in cc)
    | inr t ↦ other_place s.heap i j (some y) t ∙ h
  ];
  each = λ j z k. elim (Bool-cases (i == j)) [
    | inl t ↦
        let q = same_place s.heap i j t in
        let w : x ≡ z = cc in
        inr (y, this_place s.heap i j (some y) t, subst (λ (v : FrameInstance). Same v y) w m)
    | inr t ↦ inr (z, other_place s.heap i j (some y) t ∙ k, Same-refl z)
  ];
}

unused_product :
    (s : State) (i : ℕ) (x : FrameInstance)
    → s.heap i ≡ some x
    → in_use s x ≡ false
    → has_product s.heap i ≡ true
unfolding in_use has_product
unused_product s i x e h = elim (Option-cases x.product) [
  | inl a ↦ absurd (let z = rw (a, in_use) at h in cc)
  | inr (q, a) ↦ rw (e, has_product) (rw a refl)
]

erased_waits :
    (s : State) (i o : ℕ)
    → has_product s.heap i ≡ true
    → waits (record s { alive = erase i s.alive; heap = update s.heap i none }) o ≡ waits s o
unfolding has_product
erased_waits s i o h = elim (Bool-cases (i == o)) [
  | inl t ↦ let k : o ≡ i = ground (arith, t) in rw (k, contains-erase i s.alive, h) (ground arith)
  | inr t ↦ rw (contains-erase_other i o s.alive t, other_place s.heap i o none t, has_product) refl
]

-- An instance that is not in use is freed.
freed-Swept :
    (s : State) (i : ℕ) (x : FrameInstance)
    → s.heap i ≡ some x
    → in_use s x ≡ false
    → Swept s (record s { alive = erase i s.alive; heap = update s.heap i none })
freed-Swept s i x e unused = record {
  waiting = λ o. erased_waits s i o (unused_product s i x e unused);
  dead = λ j h. elim (Bool-cases (i == j)) [
    | inl t ↦ let k : j ≡ i = ground (arith, t) in rw k (contains-erase i s.alive)
    | inr t ↦ contains-erase_other i j s.alive t ∙ h
  ];
  gone = λ j h. elim (Bool-cases (i == j)) [
    | inl t ↦ this_place s.heap i j none t
    | inr t ↦ other_place s.heap i j none t ∙ h
  ];
  each = λ j z k. elim (Bool-cases (i == j)) [
    | inl t ↦
        let q = same_place s.heap i j t in
        let w : x ≡ z = cc in
        let same : j ≡ i = ground (arith, t) in
        inl (
          this_place s.heap i j none t,
          rw same (contains-erase i s.alive),
          subst (λ (v : FrameInstance). in_use s v ≡ false) w unused,
        )
    | inr t ↦ inr (z, other_place s.heap i j none t ∙ k, Same-refl z)
  ];
}

modify-some :
    (s : State) (i : ℕ) (x : FrameInstance) (f : FrameInstance → FrameInstance)
    → s.heap i ≡ some x
    → modify s i f ≡ record s { heap = update s.heap i (some (f x)) }
unfolding modify
modify-some s i x f e = rw (e, modify) refl

sweep-Swept : (s : State) (rest : List ((ℕ × ℕ) × ℕ)) → Swept s (sweep s rest).0
unfolding sweep
sweep-Swept s [] = Swept-refl s
sweep-Swept s ((k, i) ∷ rest) = elim (Option-cases (s.heap i)) [
  | inl e ↦
      let c = sweep-Swept (record s { crashed = true }) rest in
      rw (e, sweep) (record { waiting = c.waiting; dead = c.dead; gone = c.gone; each = c.each })
  | inr (x, e) ↦ elim (Bool-cases (in_use s x)) [
    | inl used ↦ rw (e, sweep, used) (sweep-Swept s rest)
    | inr unused ↦ elim (Bool-cases (ltb 0 x.indulgence)) [
      | inl again ↦
          rw (e, sweep, unused, again)
            (Swept-trans s _ _
              (subst (Swept s) (sym (modify-some s i x _ e)) (
                indulged-Swept s i x (record x { indulgence = x.indulgence - 1 }) e
                  (record {
                    product = refl;
                    callback = refl;
                    single_threaded = refl;
                    outputs = refl;
                  })))
              (sweep-Swept (modify s i (λ y. record y { indulgence = x.indulgence - 1 })) rest))
      | inr free ↦
          rw (e, sweep, unused, free)
            (Swept-trans s _ _ (freed-Swept s i x e unused) (
              sweep-Swept (record s { alive = erase i s.alive; heap = update s.heap i none }) rest))
    ]
  ]
]

-- Nothing holds an instance that is not in use.
unused-fields :
    (s : State) (x : FrameInstance)
    → in_use s x ≡ false
    → ((p : ℕ) × (x.product ≡ some p))
      × (x.callback ≡ none)
      × (x.single_threaded ≡ false)
      × (awaited s x.outputs ≡ false)
unfolding in_use
unused-fields s x h = elim (Option-cases x.product) [
  | inl a ↦ absurd (let z = rw (a, in_use) at h in cc)
  | inr (q, a) ↦ elim (Option-cases x.callback) [
    | inl b ↦ let z = rw (a, b, in_use) at h in ((q, a), b, ground (arith, z), ground (arith, z))
    | inr (c, b) ↦ absurd (let z = rw (a, b, in_use) at h in cc)
  ]
]

-- None of the outputs that are alive waits for a product.
none_waits :
    (s : State) (os : List ℕ)
    → awaited s os ≡ false
    → All (λ o. contains o s.alive ≡ true → has_product s.heap o ≡ true) os
unfolding awaited
none_waits s [] h = tt
none_waits s (o ∷ os) h = (λ lives. ground (arith, h, lives), none_waits s os (ground (arith, h)))

-- What the maintainer does after a turn in which a frame was asked for: an instance in memory keeps its
-- product, its callback, its outputs and its hold of a filter for one thread, or it is freed and no
-- longer alive; and then it had its product, no callback waited for it, it held no filter for one
-- thread, and each of its outputs that was alive had its product.
pub free_unused_lem :
    (s : State) (i : ℕ) (x : FrameInstance)
    → s.heap i ≡ some x
    → let t = free_unused s in
      (((t.heap i ≡ none) × (contains i t.alive ≡ false))
        × ((p : ℕ) × (x.product ≡ some p))
        × (x.callback ≡ none)
        × (x.single_threaded ≡ false)
        × All (λ o. contains o s.alive ≡ true → has_product s.heap o ≡ true) x.outputs)
      ⊎ ((y : FrameInstance) × (t.heap i ≡ some y)
          × (y.product ≡ x.product)
          × (y.callback ≡ x.callback)
          × (y.single_threaded ≡ x.single_threaded)
          × (y.outputs ≡ x.outputs))
unfolding free_unused
free_unused_lem s i x e = elim ((sweep-Swept s s.instances).each i x e) [
  | inl (n, d, f) ↦
      let (made, told, apart, outs) = unused-fields s x f in
      inl ((n, d), made, told, apart, none_waits s x.outputs outs)
  | inr (y, k, m) ↦ inr (y, k, m.product, m.callback, m.single_threaded, m.outputs)
]
