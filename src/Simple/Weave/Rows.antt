-- ===== src/Simple/Weave/Rows.antt =====
-- The rows that DoubleWeave makes of two fields.
use cat_syn.Prelude.{
  ℕ, zero, suc, ◌+◌, ◌*◌, ◌/◌, ◌≤◌, ◌<◌, ◌≡◌, refl, ◌∙◌, sym, ◌⊎◌, some, List, [], ◌∷◌, arith,
  length, take, drop,
}
use cat_syn.Plugin.Picture.{Plane}
use cat_syn.Plugin.Picture.Planes.{
  IsPlane, sample, slice_lem, length-slice, sample-slice, sample-cons, sample_head,
}
use cat_syn.Simple.Weave.{weave_rows}

-- The rows of the one field and of the other take turns.
pub record IsWoven (w h : ℕ) (top btn : Plane) : Type 0 where
  pub plane : Plane
  pub written : weave_rows w h top btn ≡ some plane
  pub sized : IsPlane w (h * 2) plane
  pub tops : (k j : ℕ) → k < h → j < w → sample plane (k * 2) j ≡ sample top k j
  pub btns : (k j : ℕ) → k < h → j < w → sample plane (suc (k * 2)) j ≡ sample btn k j

copied_row :
    (w j : ℕ) (row : List ℕ) (p q : Plane)
    → j < w
    → sample (take w (drop 0 row) ∷ p) 0 j ≡ sample (row ∷ q) 0 j
copied_row w j row p q h =
    let z : 0 + j ≡ j = omega arith in sample-slice 0 w j row p h ∙ rw z (sym (sample_head row q j))

pub weave_rows-IsWoven :
    (w h : ℕ) (top btn : Plane) → IsPlane w h top → IsPlane w h btn → IsWoven w h top btn
unfolding weave_rows
weave_rows-IsWoven w zero top btn t b = record {
  plane = [];
  written = refl;
  sized = record { rows = refl; columns = tt };
  tops = λ k j hk hj. absurd (omega arith);
  btns = λ k j hk hj. absurd (omega arith);
}
weave_rows-IsWoven w (suc h) [] btn t b = absurd (omega (arith, t.rows))
weave_rows-IsWoven w (suc h) (x ∷ top) [] t b = absurd (omega (arith, b.rows))
weave_rows-IsWoven w (suc h) (x ∷ top) (y ∷ btn) t b =
    let rest =
      weave_rows-IsWoven w h top btn
        (record { rows = omega (arith, t.rows); columns = t.columns.1 })
        (record { rows = omega (arith, b.rows); columns = b.columns.1 }) in
    let lx : 0 + w ≤ length x = omega (arith, t.columns.0) in
    let ly : 0 + w ≤ length y = omega (arith, b.columns.0) in
    let q = take w (drop 0 x) ∷ take w (drop 0 y) ∷ rest.plane in
    record {
      plane = q;
      written = rw (slice_lem 0 w x lx, slice_lem 0 w y ly, rest.written) refl;
      sized = record {
        rows = omega (arith, rest.sized.rows);
        columns = (length-slice 0 w x lx, (length-slice 0 w y ly, rest.sized.columns));
      };
      tops = tops w h x y top rest.plane rest.tops;
      btns = btns w h x y btn rest.plane rest.btns;
    }
  where
    tops :
        (w h : ℕ) (x y : List ℕ) (top rest : Plane)
        → ((k j : ℕ) → k < h → j < w → sample rest (k * 2) j ≡ sample top k j)
        → (k j : ℕ) → k < suc h
        → j < w
        → sample (take w (drop 0 x) ∷ take w (drop 0 y) ∷ rest) (k * 2) j ≡ sample (x ∷ top) k j
    tops w h x y top rest same zero j hk hj =
        let z : 0 * 2 ≡ 0 = omega arith in rw z (copied_row w j x _ top hj)
    tops w h x y top rest same (suc k) j hk hj =
        let z : suc k * 2 ≡ suc (suc (k * 2)) = omega arith in
        rw z (
          sample-cons _ _ (suc (k * 2)) j
          ∙ sample-cons _ _ (k * 2) j
          ∙ same k j (omega arith) hj
          ∙ sym (sample-cons x top k j))

    btns :
        (w h : ℕ) (x y : List ℕ) (btn rest : Plane)
        → ((k j : ℕ) → k < h → j < w → sample rest (suc (k * 2)) j ≡ sample btn k j)
        → (k j : ℕ) → k < suc h
        → j < w
        → sample (take w (drop 0 x) ∷ take w (drop 0 y) ∷ rest) (suc (k * 2)) j
          ≡ sample (y ∷ btn) k j
    btns w h x y btn rest same zero j hk hj =
        let z : 0 * 2 ≡ 0 = omega arith in rw z (sample-cons _ _ 0 j ∙ copied_row w j y rest btn hj)
    btns w h x y btn rest same (suc k) j hk hj =
        let z : suc k * 2 ≡ suc (suc (k * 2)) = omega arith in
        rw z (
          sample-cons _ _ (suc (suc (k * 2))) j
          ∙ sample-cons _ _ (suc (k * 2)) j
          ∙ same k j (omega arith) hj
          ∙ sym (sample-cons y btn k j))

-- The row of the frame, by its parity.
pub parity : (i : ℕ) → (i ≡ i / 2 * 2) ⊎ (i ≡ suc (i / 2 * 2))
parity i = ground arith
