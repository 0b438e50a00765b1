-- ===== src/Core/Queue/Fifo.antt =====
-- The linked list is a queue: what is taken is what was pushed, in that order.
use mathlib.Core.List.{append_assoc, append-nil}
use cat_syn.Prelude.{
  ℕ, suc, ◌≤◌, ◌≡◌, ◌≢◌, ◌∙◌, ap, sym, refl, subst, true, false, Option, none, some, List, [], ◌∷◌,
  ◌++◌, arith, ◌==◌, Bool-cases, Option-cases, inl, inr, ◌⊎◌,
}
use cat_syn.Core.Queue.{
  Queue, update, new, exchange, link, Polled, taken, empty, retry, pop, Event, begin, end, poll,
  taken_by, run, pushed,
}

abbrev Linked : Queue → ℕ → Type 0
Linked q t = (q.next t ≡ some (suc t)) ⊎ ((q.next t ≡ none) × (q.pending t ≡ some (suc t)))

-- The nodes after `t` hold the elements, up to the head; each is linked, or is about to be.
abbrev Chain : Queue → ℕ → List (Option ℕ) → Type 0
Chain q t [] = t ≡ q.head
Chain q t (v ∷ vs) = Linked q t × (q.value (suc t) ≡ v) × Chain q (suc t) vs

-- The queue holds the elements; a push in progress is behind the tail, and has not been linked.
pub record IsQueue (q : Queue) (vs : List (Option ℕ)) : Type 0 where
  pub chain : Chain q q.tail vs
  pub last : (i : ℕ) → q.head ≤ i → (q.next i ≡ none) × (q.pending i ≡ none)
  pub open_link : (i n : ℕ) → q.pending i ≡ some n → (q.next i ≡ none) × (q.tail ≤ i) × (n ≡ suc i)

Chain-le : (q : Queue) (t : ℕ) (vs : List (Option ℕ)) → Chain q t vs → t ≤ q.head
Chain-le q t [] c = omega arith
Chain-le q t (v ∷ vs) c = let h = Chain-le q (suc t) vs c.2 in omega arith

-- A new node at the end.
exchange-Chain :
    (q : Queue) (v : Option ℕ) (t : ℕ) (vs : List (Option ℕ))
    → ((q.next q.head ≡ none) × (q.pending q.head ≡ none))
    → Chain q t vs
    → Chain (exchange q v) t (vs ++ v ∷ [])
unfolding exchange
exchange-Chain q v t [] l c =
    let nx : q.next t ≡ none = ap q.next c ∙ l.0 in
    (inr (nx, ground arith), ground arith, ground arith)
exchange-Chain q v t (u ∷ us) l c =
    let le = Chain-le q (suc t) us c.2 in
    let other : q.head == t ≡ false = ground arith in
    let fresh : suc q.head == suc t ≡ false = ground arith in
    (
      elim c.0 [ inl a ↦ inl a | inr (a, b) ↦ inr (a, rw other b) ],
      rw fresh c.1,
      exchange-Chain q v (suc t) us l c.2,
    )

exchange-IsQueue :
    (q : Queue) (v : Option ℕ) (vs : List (Option ℕ))
    → IsQueue q vs
    → IsQueue (exchange q v) (vs ++ v ∷ [])
unfolding exchange
exchange-IsQueue q v vs r = record {
  chain = exchange-Chain q v q.tail vs (r.last q.head (omega arith)) r.chain;
  last = λ i le. let (a, b) = r.last i (omega arith) in (a, ground arith);
  open_link = λ i n e. elim (Bool-cases (q.head == i)) [
    | inl same ↦
        let w : q.head ≡ i = ground arith in
        let h = Chain-le q q.tail vs r.chain in
        let (a, _) = r.last i (omega arith) in (a, omega arith, ground arith)
    | inr other ↦ r.open_link i n (ground arith)
  ];
}

-- A link where a push is in progress.
abbrev linked : Queue → ℕ → Queue
linked q p = record q { next = update q.next p (some (suc p)); pending = update q.pending p none }

link-Chain :
    (q : Queue) (p t : ℕ) (vs : List (Option ℕ))
    → q.next p ≡ none
    → Chain q t vs
    → Chain (linked q p) t vs
link-Chain q p t [] nx c = c
link-Chain q p t (u ∷ us) nx c = elim (Bool-cases (p == t)) [
  | inl same ↦
      let w : p ≡ t = ground arith in
      (inl (rw same (ap (λ i. some (suc i)) w)), c.1, link-Chain q p (suc t) us nx c.2)
  | inr other ↦ (
    elim c.0 [ inl a ↦ inl (rw other a) | inr (a, b) ↦ inr (rw other a, rw other b) ],
    c.1,
    link-Chain q p (suc t) us nx c.2,
  )
]

link-IsQueue : (q : Queue) (p : ℕ) (vs : List (Option ℕ)) → IsQueue q vs → IsQueue (link q p) vs
unfolding link
link-IsQueue q p vs r = elim (Option-cases (q.pending p)) [
  | inl e ↦ rw (e, link) r
  | inr (n, e) ↦
      let (nx, behind, node) = r.open_link p n e in
      let result : IsQueue (linked q p) vs = record {
        chain = link-Chain q p q.tail vs nx r.chain;
        last = λ i le. elim (Bool-cases (p == i)) [
          | inl same ↦ let w : p ≡ i = ground arith in let (a, b) = r.last p (omega arith) in cc
          | inr other ↦ let (a, b) = r.last i le in (rw other a, rw other b)
        ];
        open_link = λ i m h. elim (Bool-cases (p == i)) [
          | inl same ↦ absurd (let z = rw same at h in cc)
          | inr other ↦ let (a, b, c) = r.open_link i m (rw other at h) in (rw other a, b, c)
        ];
      } in
      let same : linked q p
          ≡ record q { next = update q.next p (some n); pending = update q.pending p none } =
        rw node refl in
      rw (e, link) (subst (λ x. IsQueue x vs) (same) result)
]

-- The values after a node that was taken are as they were.
take-Chain :
    (q : Queue) (n t : ℕ) (vs : List (Option ℕ))
    → n ≤ t
    → Chain q t vs
    → Chain (record q { tail = n; value = update q.value n none }) t vs
take-Chain q n t [] le c = c
take-Chain q n t (u ∷ us) le c =
    let other : n == suc t ≡ false = ground arith in
    (c.0, rw other c.1, take-Chain q n (suc t) us (omega arith) c.2)

-- What `pop` does with a queue that holds the elements: it takes the first, or it finds the queue
-- empty, or a push of the first is in progress.
pub data Pops (q : Queue) (vs : List (Option ℕ)) : Type 0 where
  takes :
      (v : Option ℕ) (rest : List (Option ℕ)) (t : Queue)
      → vs ≡ v ∷ rest
      → pop q ≡ (taken v, t)
      → IsQueue t rest
      → Pops q vs
  finds : vs ≡ [] → pop q ≡ (empty, q) → Pops q vs
  waits : (n : ℕ) → q.pending q.tail ≡ some n → pop q ≡ (retry, q) → Pops q vs

pop-Pops : (q : Queue) (vs : List (Option ℕ)) → IsQueue q vs → Pops q vs
unfolding pop
pop-Pops q [] r =
    let at : q.tail ≡ q.head = r.chain in
    let nx : q.next q.tail ≡ none = ap q.next at ∙ (r.last q.head (omega arith)).0 in
    let same : q.head == q.tail ≡ true = ground arith in finds refl (rw (nx, pop, same) refl)
pop-Pops q (v ∷ vs) r = elim r.chain.0 [
  | inl nx ↦
      let t = record q { tail = suc q.tail; value = update q.value (suc q.tail) none } in
      takes v vs t refl
        (rw (nx, pop)
          (ap (λ (x : Option ℕ). (let y : Polled × Queue = (taken x, t) in y)) r.chain.1))
        (record {
          chain = take-Chain q (suc q.tail) (suc q.tail) vs (omega arith) r.chain.2;
          last = r.last;
          open_link = λ i n h.
              let (a, b, c) = r.open_link i n h in
              let ne : q.tail ≢ i = λ w. (let z = ap q.next w in cc) in (a, omega arith, c);
        })
  | inr (nx, p) ↦
      let le = Chain-le q (suc q.tail) vs r.chain.2 in
      let other : q.head == q.tail ≡ false = ground arith in
      waits (suc q.tail) p (rw (nx, pop, other) refl)
]

pop-taken :
    (q : Queue) (vs out : List (Option ℕ))
    → Pops q vs
    → IsQueue q vs
    → (rest : List (Option ℕ)) × IsQueue (pop q).1 rest
      × (taken_by (pop q).0 out ++ rest ≡ out ++ vs)
pop-taken q vs out (takes v rest t e p r) i =
    (rest, rw p r, rw (p, e) (append_assoc out (v ∷ []) rest))
pop-taken q vs out (finds e p) i = (vs, rw p i, rw p refl)
pop-taken q vs out (waits n e p) i = (vs, rw p i, rw p refl)

run-IsQueue :
    (es : List Event) (q : Queue) (vs out : List (Option ℕ))
    → IsQueue q vs
    → (rest : List (Option ℕ)) × IsQueue (run q out es).0 rest
      × ((run q out es).1 ++ rest ≡ (out ++ vs) ++ pushed es)
unfolding run
run-IsQueue [] q vs out r = (vs, r, sym (append-nil (out ++ vs)))
run-IsQueue (begin v ∷ es) q vs out r =
    let (rest, a, e) =
      run-IsQueue es (exchange q v) (vs ++ v ∷ []) out (exchange-IsQueue q v vs r) in
    (rest, a, e ∙ simp (append_assoc))
run-IsQueue (end p ∷ es) q vs out r = run-IsQueue es (link q p) vs out (link-IsQueue q p vs r)
run-IsQueue (poll ∷ es) q vs out r =
    let (left, a, e) = pop-taken q vs out (pop-Pops q vs r) r in
    let (rest, b, f) = run-IsQueue es (pop q).1 left (taken_by (pop q).0 out) a in
    (rest, b, f ∙ ap (λ xs. xs ++ pushed es) e)

new-IsQueue : IsQueue new []
new-IsQueue = record { chain = refl; last = λ i le. (refl, refl); open_link = λ i n e. cc }

pop-first :
    (q : Queue) (v : Option ℕ) (vs rest : List (Option ℕ))
    → ((i : ℕ) → q.pending i ≡ none)
    → rest ≡ v ∷ vs
    → Pops q rest
    → (pop q).0 ≡ taken v
pop-first q v vs rest quiet e (takes u more t f p r) = let w : u ≡ v = cc in rw (p, w) refl
pop-first q v vs rest quiet e (finds f p) = cc
pop-first q v vs rest quiet e (waits n f p) = absurd (let z = sym (quiet q.tail) ∙ f in cc)

pop-empty : (q : Queue) (rest : List (Option ℕ)) → (pop q).0 ≡ empty → Pops q rest → rest ≡ []
pop-empty q rest e (takes u more t f p r) = absurd (let z = rw p at e in cc)
pop-empty q rest e (finds f p) = f
pop-empty q rest e (waits n f p) = absurd (let z = rw p at e in cc)

-- However the halves of the pushes and the pops interleave: what was taken, with what is left, is what
-- was pushed, in the order in which the pushes began. `pop` finds nothing only where nothing is left;
-- where no push is in progress it takes the first that is left; and a push in progress writes to no
-- node before the tail, which are the ones that `pop` has freed.
pub fifo :
    (es : List Event)
    → let q = (run new [] es).0 in
      (rest : List (Option ℕ)) × ((run new [] es).1 ++ rest ≡ pushed es)
      × ((pop q).0 ≡ empty → rest ≡ [])
      × (((i : ℕ) → q.pending i ≡ none)
          → (v : Option ℕ) (vs : List (Option ℕ)) → rest ≡ v ∷ vs
          → (pop q).0 ≡ taken v)
      × ((i n : ℕ) → q.pending i ≡ some n → q.tail ≤ i)
fifo es =
    let q = (run new [] es).0 in
    let (rest, r, e) = run-IsQueue es new [] [] new-IsQueue in
    let p = pop-Pops q rest r in
    (
      rest,
      e,
      λ h. pop-empty q rest h p,
      λ quiet v vs h. pop-first q v vs rest quiet h p,
      λ i n h. (r.open_link i n h).1,
    )
