-- ===== src/Simple/Transpose/Written.antt =====
-- The scalar plane functions write the transposed plane.
use cat_syn.Prelude.{
  ℕ, zero, suc, ◌+◌, ◌*◌, ◌/◌, ◌≤◌, ◌<◌, ◌≡◌, refl, ◌∙◌, sym, true, Option, some, List, [], ◌∷◌,
  ◌⊎◌, inl, inr, arith, length, get_elem?, subst,
}
use native.Mathlib.Decide.{ℕ_discrete}
use cat_syn.Plugin.Picture.{Plane, bind}
use cat_syn.Plugin.Picture.Planes.{IsPlane, sample, sample-cons, sample_head}
use cat_syn.Plugin.Picture.Frames.{IsDrawn, IsDrawn-congr}
use cat_syn.Simple.Flip.{supported}
use cat_syn.Simple.Transpose.{Store, scalar_function, written_row, written_rows}
use cat_syn.Simple.Transpose.Loops.{Placed}
use cat_syn.Simple.Transpose.Kernel.{sample-some, transpose_plane-Copies}

-- What is placed is written out, row by row.
written_row-length :
    (rows : Plane) (w h : ℕ) (st : Store) (x : ℕ)
    → IsPlane w h rows
    → x < w
    → ((i j : ℕ) → i < h → j < w → Placed rows st i j)
    → (y count : ℕ) → y + count ≤ h
    → (row : List ℕ) × (written_row st x y count ≡ some row)
      × (length row ≡ count)
      × ((k : ℕ) → k < count → get_elem? row k ≡ sample rows (y + k) x)
unfolding written_row
written_row-length rows w h st x t hx placed y zero l =
    ([], refl, refl, λ k lt. absurd (omega arith))
written_row-length rows w h st x t hx placed y (suc count) l =
    let (v, ev) = sample-some w h rows y x t (omega arith) hx in
    let (row, er, n, g) =
      written_row-length rows w h st x t hx placed (suc y) count (omega arith) in
    let here : st x y ≡ some v = placed y x (omega arith) hx ∙ ev in
    (v ∷ row, rw (here, er) refl, omega (arith, n), cells rows x y count v row ev g)
  where
    cells :
        (rows : Plane) (x y count v : ℕ) (row : List ℕ)
        → sample rows y x ≡ some v
        → ((k : ℕ) → k < count → get_elem? row k ≡ sample rows (suc y + k) x)
        → (k : ℕ) → k < suc count
        → get_elem? (v ∷ row) k ≡ sample rows (y + k) x
    cells rows x y count v row e g zero lt = let z : y + 0 ≡ y = omega arith in rw z (sym e)
    cells rows x y count v row e g (suc k) lt =
        let z : y + suc k ≡ suc y + k = omega arith in rw z (g k (omega arith))

written_rows-IsDrawn :
    (rows : Plane) (w h : ℕ) (st : Store)
    → IsPlane w h rows
    → ((i j : ℕ) → i < h → j < w → Placed rows st i j)
    → (x count : ℕ) → x + count ≤ w
    → IsDrawn h count (written_rows st h x count) (λ i j. sample rows j (x + i))
unfolding written_rows
written_rows-IsDrawn rows w h st t placed x zero l = record {
  plane = [];
  written = refl;
  sized = record { rows = refl; columns = tt };
  same = λ i j hi hj. absurd (omega arith);
}
written_rows-IsDrawn rows w h st t placed x (suc count) l =
    let (row, er, n, g) =
      written_row-length rows w h st x t (omega arith) placed 0 h (omega arith) in
    let rest = written_rows-IsDrawn rows w h st t placed (suc x) count (omega arith) in
    record {
      plane = row ∷ rest.plane;
      written = rw (er, rest.written) refl;
      sized = record { rows = omega (arith, rest.sized.rows); columns = (n, rest.sized.columns) };
      same = lines rows x h count row rest.plane g rest.same;
    }
  where
    lines :
        (rows : Plane) (x h count : ℕ) (row : List ℕ) (rest : Plane)
        → ((k : ℕ) → k < h → get_elem? row k ≡ sample rows (0 + k) x)
        → ((i j : ℕ) → i < count → j < h → sample rest i j ≡ sample rows j (suc x + i))
        → (i j : ℕ) → i < suc count
        → j < h
        → sample (row ∷ rest) i j ≡ sample rows j (x + i)
    lines rows x h count row rest g e zero j hi hj =
        let z : x + 0 ≡ x = omega arith in
        let o : 0 + j ≡ j = omega arith in
        sample_head row rest j ∙ rw z (subst (λ q. get_elem? row j ≡ sample rows q x) o (g j hj))
    lines rows x h count row rest g e (suc i) j hi hj =
        let z : x + suc i ≡ suc x + i = omega arith in
        sample-cons row rest i j ∙ rw z (e i j (omega arith) hj)

written-IsDrawn :
    (o : Option Store) (w h : ℕ) (rows : Plane)
    → IsPlane w h rows
    → (st : Store) × (o ≡ some st) × ((i j : ℕ) → i < h → j < w → Placed rows st i j)
    → IsDrawn h w (bind o λ st. written_rows st h 0 w) (λ i j. sample rows j i)
written-IsDrawn o w h rows t (st, e, placed) = rw e (
    IsDrawn-congr h w (λ i j hi hj. zero_start rows i j)
      (written_rows-IsDrawn rows w h st t placed 0 w (omega arith)))
  where
    zero_start : (rows : Plane) (i j : ℕ) → sample rows j (0 + i) ≡ sample rows j i
    zero_start rows i j = let o : 0 + i ≡ i = omega arith in rw o refl

sizes : (bytes : ℕ) → supported bytes ≡ true → (bytes ≡ 1) ⊎ ((bytes ≡ 2) ⊎ (bytes ≡ 4))
unfolding supported
sizes bytes b = elim (ℕ_discrete bytes 1) [
  | yes e ↦ inl e
  | no e ↦ elim (ℕ_discrete bytes 2) [ yes f ↦ inr (inl f) | no f ↦ inr (inr (ground (arith, b))) ]
]

-- For a sample size that is supported the plane written is the source's plane with rows and columns
-- exchanged.
pub scalar_function-IsDrawn :
    (bytes w h : ℕ) (rows : Plane)
    → supported bytes ≡ true
    → IsPlane w h rows
    → IsDrawn h w
        (bind (scalar_function bytes rows h w w h) λ st. written_rows st h 0 w)
        (λ i j. sample rows j i)
unfolding scalar_function supported
scalar_function-IsDrawn bytes w h rows b t = elim (sizes bytes b) [
  | inl e ↦ rw e (
      written-IsDrawn _ w h rows t (
        transpose_plane-Copies w h rows t 64 64 (omega arith) (λ k n e l. omega arith)
          λ x l. (x / 64 * 64, x / 64, omega arith, omega arith, omega arith)))
  | inr (inl e) ↦ rw e (
      written-IsDrawn _ w h rows t (
        transpose_plane-Copies w h rows t 32 32 (omega arith) (λ k n e l. omega arith)
          λ x l. (x / 32 * 32, x / 32, omega arith, omega arith, omega arith)))
  | inr (inr e) ↦ rw e (
      written-IsDrawn _ w h rows t (
        transpose_plane-Copies w h rows t 16 64 (omega arith) (λ k n e l. omega arith)
          λ x l. (x / 16 * 16, x / 16, omega arith, omega arith, omega arith)))
]
