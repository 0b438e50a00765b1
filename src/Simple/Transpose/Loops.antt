-- ===== src/Simple/Transpose/Loops.antt =====
-- What loops that copy cells leave written.
use cat_syn.Prelude.{
  ℕ, zero, suc, ◌+◌, ◌*◌, ◌≤◌, ◌<◌, ◌≡◌, Option, some, ◌⊎◌, inl, inr, arith, ◌∙◌, subst,
}
use native.Mathlib.Decide.{dec_lt}
use cat_syn.Plugin.Picture.{Plane, bind}
use cat_syn.Plugin.Picture.Planes.{sample}
use cat_syn.Simple.Transpose.{Store, put, copy_cell, loop}

-- Sample (i, j) of the source stands where it belongs.
abbrev pub Placed : Plane → Store → ℕ → ℕ → Type 0
Placed rows st i j = st j i ≡ sample rows i j

-- A piece of the code places the cells of `C`, and leaves those in place that were.
pub record Run (rows : Plane) (f : Store → Option Store) (C : ℕ → ℕ → Type 0) (st : Store)
    : Type 0 where
  pub after : Store
  pub written : f st ≡ some after
  pub keeps : (i j : ℕ) → Placed rows st i j → Placed rows after i j
  pub makes : (i j : ℕ) → C i j → Placed rows after i j

abbrev pub Copies : Plane → (Store → Option Store) → (ℕ → ℕ → Type 0) → Type 0
Copies rows f C = (st : Store) → Run rows f C st

-- The values that a loop's variable takes.
abbrev pub Visited : ℕ → ℕ → ℕ → ℕ → Type 0
Visited i b step k = (n : ℕ) × (k ≡ i + n * step) × (k < b)

round :
    (body : ℕ → Store → Option Store) (b step fuel i : ℕ) (st : Store) {s : Store}
    → i < b
    → body i st ≡ some s
    → loop body b step (suc fuel) i st ≡ loop body b step fuel (i + step) s
unfolding loop
round body b step fuel i st l e = ground (arith, e)

last_round :
    (body : ℕ → Store → Option Store) (b step fuel i : ℕ) (st : Store)
    → b ≤ i
    → loop body b step (suc fuel) i st ≡ some st
unfolding loop
last_round body b step fuel i st l = ground arith

module _ (rows : Plane) where
  put-Placed :
      (st : Store) (i j v x y : ℕ)
      → sample rows i j ≡ some v
      → Placed rows st x y
      → Placed rows (put st j i v) x y
  unfolding put
  put-Placed st i j v x y e k = ground (arith, e, k)

  pub copy_cell-Copies :
      (dw dh i j : ℕ) {v : ℕ}
      → sample rows i j ≡ some v
      → j < dh
      → i < dw
      → Copies rows (copy_cell rows dw dh i j) (λ x y. (x ≡ i) × (y ≡ j))
  unfolding copy_cell put
  copy_cell-Copies dw dh i j {v} e hj hi st = record {
    after = put st j i v;
    written = ground arith;
    keeps = λ x y k. put-Placed st i j v x y e k;
    makes = λ x y c. ground (arith, e, c);
  }

  -- One piece and then another.
  pub seq-Copies :
      (f g : Store → Option Store) (C D E : ℕ → ℕ → Type 0)
      → Copies rows f C
      → Copies rows g D
      → ((i j : ℕ) → E i j → C i j ⊎ D i j)
      → Copies rows (λ st. bind (f st) g) E
  seq-Copies f g C D E cf cg cover st =
      let s = cf st in
      let t = cg s.after in
      record {
        after = t.after;
        written = rw s.written t.written;
        keeps = λ i j k. t.keeps i j (s.keeps i j k);
        makes = λ i j e. elim (cover i j e) [
          | inl c ↦ t.keeps i j (s.makes i j c)
          | inr d ↦ t.makes i j d
        ];
      }

  Visited-later : (i b step k : ℕ) → Visited (i + step) b step k → Visited i b step k
  Visited-later i b step k (n, e, l) = (suc n, omega arith, l)

  first_or_later :
      (i b step : ℕ) (C : ℕ → ℕ → ℕ → Type 0) (x y : ℕ)
      → (k : ℕ) × Visited i b step k × C k x y
      → C i x y ⊎ ((k : ℕ) × Visited (i + step) b step k × C k x y)
  first_or_later i b step C x y (k, (zero, e, l), d) =
      let z : k ≡ i = omega arith in inl (subst (λ w. C w x y) z d)
  first_or_later i b step C x y (k, (suc n, e, l), d) = inr (k, (n, omega arith, l), d)

  -- A loop copies what its rounds copy.
  pub loop-Copies :
      (body : ℕ → Store → Option Store) (b step fuel i : ℕ) (C : ℕ → ℕ → ℕ → Type 0)
      → 0 < step
      → b ≤ i + fuel
      → ((k : ℕ) → Visited i b step k → Copies rows (body k) (C k))
      → Copies rows (loop body b step fuel i) (λ x y. (k : ℕ) × Visited i b step k × C k x y)
  unfolding loop
  loop-Copies body b step zero i C pos_step enough each st = record {
    after = st;
    written = ground arith;
    keeps = λ x y k. k;
    makes = λ x y c. let (k, v, d) = c in let (n, e, l) = v in absurd (omega arith);
  }
  loop-Copies body b step (suc fuel) i C pos_step enough each st = elim (dec_lt i b) [
    | yes l ↦
        let s = each i (0, omega arith, l) st in
        let t =
          loop-Copies body b step fuel (i + step) C pos_step (omega arith)
            (λ k v. each k (Visited-later i b step k v)) s.after in
        record {
          after = t.after;
          written = round body b step fuel i st l s.written ∙ t.written;
          keeps = λ x y k. t.keeps x y (s.keeps x y k);
          makes = λ x y c. elim (first_or_later i b step C x y c) [
            | inl d ↦ t.keeps x y (s.makes x y d)
            | inr d ↦ t.makes x y d
          ];
        }
    | no l ↦ record {
      after = st;
      written = last_round body b step fuel i st (omega arith);
      keeps = λ x y k. k;
      makes = λ x y c. let (k, v, d) = c in let (n, e, m) = v in absurd (omega arith);
    }
  ]
