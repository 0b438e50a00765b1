-- ===== src/Core/Wedge/Exclusion.antt =====
-- The writer of a wedge lock is alone.
use cat_syn.Prelude.{
  ℕ, zero, suc, ◌+◌, ◌*◌, ◌≤◌, ◌<◌, ◌≡◌, ◌≢◌, ◌∙◌, ap, refl, some, List, [], ◌∷◌, arith, length,
  get_elem?, Option-cases, inl, inr, ◌⊎◌,
}
use cat_syn.Core.Wedge.{
  Holder, idle, backing, shared, exclusive, Operation, try_shared, back_off, try_exclusive,
  fail_exclusive, unlock, operate, Workers, set, step, run, all_idle, highest,
}

-- How many workers have counted themselves, hold the lock with others, or alone.
abbrev pub counted : Holder → ℕ
counted idle = 0
counted backing = 1
counted shared = 1
counted exclusive = 0

abbrev pub shares : Holder → ℕ
shares idle = 0
shares backing = 0
shares shared = 1
shares exclusive = 0

abbrev pub writes : Holder → ℕ
writes idle = 0
writes backing = 0
writes shared = 0
writes exclusive = 1

abbrev pub total : (Holder → ℕ) → List Holder → ℕ
total f [] = 0
total f (h ∷ hs) = f h + total f hs

total-set :
    (f : Holder → ℕ) (hs : List Holder) (i : ℕ) (h g : Holder)
    → get_elem? hs i ≡ some h
    → total f (set hs i g) + f h ≡ total f hs + f g
total-set f [] i h g e = cc
total-set f (x ∷ xs) zero h g e = ground arith
total-set f (x ∷ xs) (suc i) h g e = omega (arith, total-set f xs i h g e)

length-set : (hs : List Holder) (i : ℕ) (h : Holder) → length (set hs i h) ≡ length hs
length-set [] i h = refl
length-set (x ∷ xs) zero h = refl
length-set (x ∷ xs) (suc i) h = omega (arith, length-set xs i h)

counted-le-length : (hs : List Holder) → total counted hs + total writes hs ≤ length hs
counted-le-length [] = omega arith
counted-le-length (idle ∷ hs) = omega (arith, counted-le-length hs)
counted-le-length (backing ∷ hs) = omega (arith, counted-le-length hs)
counted-le-length (shared ∷ hs) = omega (arith, counted-le-length hs)
counted-le-length (exclusive ∷ hs) = omega (arith, counted-le-length hs)

-- The word counts the workers, with the highest bit for a writer, and a writer is alone.
pub record IsWedge (n : ℕ) (s : Workers) : Type 0 where
  pub size : length s.holders ≡ n
  pub word : s.word ≡ total counted s.holders + highest * total writes s.holders
  pub one : total writes s.holders ≤ 1
  pub alone : total writes s.holders ≡ 1 → total shares s.holders ≡ 0

shares-le-counted : (hs : List Holder) → total shares hs ≤ total counted hs
shares-le-counted [] = omega arith
shares-le-counted (idle ∷ hs) = omega (arith, shares-le-counted hs)
shares-le-counted (backing ∷ hs) = omega (arith, shares-le-counted hs)
shares-le-counted (shared ∷ hs) = omega (arith, shares-le-counted hs)
shares-le-counted (exclusive ∷ hs) = omega (arith, shares-le-counted hs)

-- An operation that leaves the word as the workers' new positions say keeps the invariant.
set-IsWedge :
    (n : ℕ) (s : Workers) (i w' : ℕ) (h g : Holder)
    → get_elem? s.holders i ≡ some h
    → IsWedge n s
    → w' + counted h + highest * writes h ≡ s.word + counted g + highest * writes g
    → total writes s.holders + writes g ≤ 1 + writes h
    → (total writes s.holders + writes g ≡ 1 + writes h
        → total shares s.holders + shares g ≡ shares h)
    → IsWedge n (record { word = w'; holders = set s.holders i g })
set-IsWedge n s i w' h g at inv word one alone =
    let c = total-set counted s.holders i h g at in
    let e = total-set writes s.holders i h g at in
    let r = total-set shares s.holders i h g at in
    record {
      size = length-set s.holders i g ∙ inv.size;
      word = omega (arith, inv.word);
      one = omega arith;
      alone = λ p. omega (arith, alone (omega arith));
    }

total-one :
    (f : Holder → ℕ) (hs : List Holder) (i : ℕ) {h : Holder}
    → get_elem? hs i ≡ some h
    → f h ≤ total f hs
total-one f [] i e = cc
total-one f (x ∷ xs) zero e = ground arith
total-one f (x ∷ xs) (suc i) {h} e = omega (arith, total-one f xs i {h = h} e)

-- What the invariant says of a worker that stands at `h`.
facts :
    (n : ℕ) (s : Workers) (i : ℕ) (h : Holder)
    → get_elem? s.holders i ≡ some h
    → IsWedge n s
    → (total counted s.holders + total writes s.holders ≤ n)
      × (total shares s.holders ≤ total counted s.holders)
      × (counted h ≤ total counted s.holders)
      × (writes h ≤ total writes s.holders)
      × (shares h ≤ total shares s.holders)
      × (total writes s.holders ≤ 1)
      × (s.word ≡ total counted s.holders + highest * total writes s.holders)
      × (total writes s.holders ≡ 1 → total shares s.holders ≡ 0)
facts n s i h at inv = (
  omega (arith, counted-le-length s.holders, inv.size),
  shares-le-counted s.holders,
  total-one counted s.holders i at,
  total-one writes s.holders i at,
  total-one shares s.holders i at,
  inv.one,
  inv.word,
  inv.alone,
)

operate-IsWedge :
    (n : ℕ) (s : Workers) (i : ℕ) (op : Operation) (h g : Holder) (w' : ℕ)
    → n < highest
    → get_elem? s.holders i ≡ some h
    → operate op h s.word ≡ some (g, w')
    → IsWedge n s
    → IsWedge n (record { word = w'; holders = set s.holders i g })
unfolding operate
operate-IsWedge n s i try_shared idle g w' few at done inv =
    let known = facts n s i idle at inv in
    set-IsWedge n s i w' idle g at inv (ground arith) (ground arith)
      (λ p. ground (arith, inv.alone))
operate-IsWedge n s i back_off backing g w' few at done inv =
    let known = facts n s i backing at inv in
    set-IsWedge n s i w' backing g at inv (ground arith) (ground arith)
      (λ p. ground (arith, inv.alone))
operate-IsWedge n s i try_exclusive idle g w' few at done inv =
    let known = facts n s i idle at inv in
    set-IsWedge n s i w' idle g at inv (ground arith) (ground arith)
      (λ p. ground (arith, inv.alone))
operate-IsWedge n s i fail_exclusive idle g w' few at done inv =
    let known = facts n s i idle at inv in
    set-IsWedge n s i w' idle g at inv (ground arith) (ground arith)
      (λ p. ground (arith, inv.alone))
operate-IsWedge n s i unlock shared g w' few at done inv =
    let known = facts n s i shared at inv in
    set-IsWedge n s i w' shared g at inv (ground arith) (ground arith)
      (λ p. ground (arith, inv.alone))
operate-IsWedge n s i unlock exclusive g w' few at done inv =
    let known = facts n s i exclusive at inv in
    set-IsWedge n s i w' exclusive g at inv (ground arith) (ground arith)
      (λ p. ground (arith, inv.alone))
operate-IsWedge n s i op h g w' few at done inv = cc

step-IsWedge :
    (n : ℕ) (s : Workers) (i : ℕ) (op : Operation)
    → n < highest
    → IsWedge n s
    → IsWedge n (step s i op)
unfolding step
step-IsWedge n s i op few inv = elim (Option-cases (get_elem? s.holders i)) [
  | inl e ↦ rw (e, step) inv
  | inr (h, at) ↦ elim (Option-cases (operate op h s.word)) [
    | inl e ↦ rw (at, e, step) inv
    | inr ((g, w'), done) ↦ rw (at, done, step) (operate-IsWedge n s i op h g w' few at done inv)
  ]
]

pub all_idle-IsWedge : (n : ℕ) → IsWedge n (record { word = 0; holders = all_idle n })
all_idle-IsWedge zero = ground arith
all_idle-IsWedge (suc n) = let h = all_idle-IsWedge n in ground (arith, h.size, h.word)

-- With fewer than 2 ^ 31 workers, the word stays the number of workers that have counted themselves,
-- with the highest bit for a writer, whatever they do in whatever order; there is one writer at most,
-- and while there is one no worker shares the lock.
pub run-IsWedge :
    (n : ℕ) (schedule : List (ℕ × Operation)) {s : Workers}
    → n < highest
    → IsWedge n s
    → IsWedge n (run schedule s)
unfolding run
run-IsWedge n [] few inv = inv
run-IsWedge n ((i, op) ∷ rest) {s} few inv =
    run-IsWedge n rest {s = step s i op} few (step-IsWedge n s i op few inv)

total-two :
    (f : Holder → ℕ) (hs : List Holder) (i j : ℕ) {g h : Holder}
    → (i ≢ j)
    → get_elem? hs i ≡ some g
    → get_elem? hs j ≡ some h
    → f g + f h ≤ total f hs
total-two f [] i j ne p q = cc
total-two f (x ∷ xs) zero zero ne p q = absurd (ne refl)
total-two f (x ∷ xs) zero (suc j) {g} {h} ne p q = ground (arith, total-one f xs j {h = h} q)
total-two f (x ∷ xs) (suc i) zero {g} {h} ne p q = ground (arith, total-one f xs i {h = g} p)
total-two f (x ∷ xs) (suc i) (suc j) {g} {h} ne p q =
    omega (arith, total-two f xs i j {g = g} {h = h} (λ e. ne (ap suc e)) p q)

writer_alone_of :
    {n : ℕ} (s : Workers) (i j : ℕ) (h : Holder)
    → IsWedge n s
    → get_elem? s.holders i ≡ some exclusive
    → get_elem? s.holders j ≡ some h
    → i ≢ j
    → (h ≡ idle) ⊎ (h ≡ backing)
writer_alone_of s i j idle inv p q ne = inl refl
writer_alone_of s i j backing inv p q ne = inr refl
writer_alone_of s i j shared inv p q ne = absurd (
    omega (
      arith,
      inv.one,
      inv.alone (omega (arith, total-one writes s.holders i p, inv.one)),
      total-one shares s.holders j q,
    ))
writer_alone_of s i j exclusive inv p q ne =
    absurd (omega (arith, inv.one, total-two writes s.holders i j ne p q))

-- Among fewer than 2 ^ 31 workers that start with a free lock, whatever they do in whatever order,
-- where one holds the lock alone no other holds it, alone or with others.
pub writer_alone :
    (n : ℕ) (schedule : List (ℕ × Operation)) (i j : ℕ) {h : Holder}
    → n < highest
    → let s = run schedule (record { word = 0; holders = all_idle n }) in
      get_elem? s.holders i ≡ some exclusive
      → get_elem? s.holders j ≡ some h
      → i ≢ j
      → (h ≡ idle) ⊎ (h ≡ backing)
writer_alone n schedule i j {h} few p q ne =
    let s = run schedule (record { word = 0; holders = all_idle n }) in
    let inv = run-IsWedge n schedule few (all_idle-IsWedge n) in writer_alone_of s i j h inv p q ne
