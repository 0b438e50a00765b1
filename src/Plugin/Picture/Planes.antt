-- ===== src/Plugin/Picture/Planes.antt =====
-- What vs_bitblt writes, sample by sample.
use cat_syn.Prelude.{
  ℕ, zero, suc, ◌+◌, ◌-◌, ◌*◌, ◌≤◌, ◌<◌, ◌≡◌, refl, ◌∙◌, sym, Option, some, List, [], ◌∷◌, arith,
  length, get_elem?, take, drop, All, get_elem?-drop, get_elem?-take, length-take, length-drop,
  get_elem?-some, list_ext, rev_onto, get_elem?-rev_onto, length-rev_onto, All-rev_onto, subst,
}
use cat_syn.Plugin.Picture.{Plane, bind, slice, bitblt}

-- A plane of `h` rows of `w` samples each.
pub record IsPlane (w h : ℕ) (p : Plane) : Type 0 where
  pub rows : length p ≡ h
  pub columns : All (λ row. length row ≡ w) p

-- The sample in column j of row i.
unfoldable pub sample : Plane → ℕ → ℕ → Option ℕ
sample p i j = bind (get_elem? p i) λ row. get_elem? row j

module _ {A : Type 0} (P : A → Type 0) where
  pub All-get : (xs : List A) (i : ℕ) {x : A} → All P xs → get_elem? xs i ≡ some x → P x
  All-get [] i a e = cc
  All-get (y ∷ xs) zero {x} a e = let w : y ≡ x = cc in subst P w a.0
  All-get (y ∷ xs) (suc i) a e = All-get xs i a.1 e

  pub All-drop : (n : ℕ) (xs : List A) → All P xs → All P (drop n xs)
  All-drop zero xs a = a
  All-drop (suc n) [] a = a
  All-drop (suc n) (x ∷ xs) a = All-drop n xs a.1

pub sample_row :
    (p : Plane) (i : ℕ) {row : List ℕ}
    → get_elem? p i ≡ some row
    → (j : ℕ) → sample p i j ≡ get_elem? row j
unfolding sample
sample_row p i e j = rw e refl

-- Two planes of one size with the same samples are equal.
pub plane_ext :
    (w h : ℕ) (p q : Plane)
    → IsPlane w h p
    → IsPlane w h q
    → ((i j : ℕ) → i < h → j < w → sample p i j ≡ sample q i j)
    → p ≡ q
plane_ext w h p q ip iq same = list_ext p q (cc (ip.rows, iq.rows)) λ i l.
    let (r, er) = get_elem?-some p i l in
    let (s, es) = get_elem?-some q i (omega (arith, ip.rows, iq.rows)) in
    let lr = All-get (λ row. length row ≡ w) p i ip.columns er in
    let ls = All-get (λ row. length row ≡ w) q i iq.columns es in
    let rs : r ≡ s = list_ext r s (cc (lr, ls)) λ j k.
      sym (sample_row p i er j)
      ∙ same i j (omega (arith, ip.rows)) (omega arith)
      ∙ sample_row q i es j in
    cc

pub slice_lem :
    (x w : ℕ) (row : List ℕ) → x + w ≤ length row → slice x w row ≡ some (take w (drop x row))
unfolding slice
slice_lem x w row h = ground arith

pub length-slice : (x w : ℕ) (row : List ℕ) → x + w ≤ length row → length (take w (drop x row)) ≡ w
length-slice x w row h = length-take w (drop x row) (omega (arith, length-drop x row))

pub sample-cons : (row : List ℕ) (p : Plane) (i j : ℕ) → sample (row ∷ p) (suc i) j ≡ sample p i j
unfolding sample
sample-cons row p i j = refl

pub sample_head : (row : List ℕ) (p : Plane) (j : ℕ) → sample (row ∷ p) 0 j ≡ get_elem? row j
unfolding sample
sample_head row p j = refl

-- What is read: `h` rows of `w` samples each, from rows and columns that the source has.
pub record IsCopy (step x w h : ℕ) (rows : Plane) : Type 0 where
  pub copy : Plane
  pub written : bitblt step x w h rows ≡ some copy
  pub plane : IsPlane w h copy
  pub same : (i j : ℕ) → i < h → j < w → sample copy i j ≡ sample rows (i * step) (x + j)

pub sample-drop : (n : ℕ) (p : Plane) (i j : ℕ) → sample (drop n p) i j ≡ sample p (n + i) j
unfolding sample
sample-drop n p i j = rw (get_elem?-drop n p i) refl

later_rows :
    (step h : ℕ) (rows : Plane)
    → 0 < step
    → suc h * step < length rows + step
    → h * step < length (drop step rows) + step
later_rows step zero rows hs within = omega arith
later_rows step (suc h) rows hs within = omega (arith, length-drop step rows)

pub sample-slice :
    (x w j : ℕ) (row : List ℕ) (p : Plane)
    → j < w
    → sample (take w (drop x row) ∷ p) 0 j ≡ get_elem? row (x + j)
unfolding sample
sample-slice x w j row p h = get_elem?-take w (drop x row) j h ∙ get_elem?-drop x row j

copied :
    (step x w h : ℕ) (row : List ℕ) (rows copy : Plane)
    → ((i j : ℕ)
        → i < h
        → j < w
        → sample copy i j ≡ sample (drop step (row ∷ rows)) (i * step) (x + j))
    → (i j : ℕ) → i < suc h
    → j < w
    → sample (take w (drop x row) ∷ copy) i j ≡ sample (row ∷ rows) (i * step) (x + j)
unfolding sample
copied step x w h row rows copy rest zero j hi hj =
    let z : 0 * step ≡ 0 = omega arith in
    sample-slice x w j row copy hj ∙ rw z (sym (sample_row (row ∷ rows) 0 refl (x + j)))
copied step x w h row rows copy rest (suc i) j hi hj =
    let z : suc i * step ≡ step + i * step = omega arith in
    rw z (rest i j (omega arith) hj ∙ sample-drop step (row ∷ rows) (i * step) (x + j))

-- Where all that is asked for lies within the source, vs_bitblt copies it.
pub bitblt-IsCopy :
    (step x w h v : ℕ) (rows : Plane)
    → 0 < step
    → All (λ row. length row ≡ v) rows
    → x + w ≤ v
    → h * step < length rows + step
    → IsCopy step x w h rows
unfolding bitblt
bitblt-IsCopy step x w zero v rows pos_step a fits within = record {
  copy = [];
  written = refl;
  plane = record { rows = refl; columns = tt };
  same = λ i j hi hj. absurd (omega arith);
}
bitblt-IsCopy step x w (suc h) v [] pos_step a fits within = absurd (omega arith)
bitblt-IsCopy step x w (suc h) v (row ∷ rows) pos_step a fits within =
    let rest =
      bitblt-IsCopy step x w h v (drop step (row ∷ rows)) pos_step
        (All-drop (λ row. length row ≡ v) step (row ∷ rows) a) fits
        (later_rows step h (row ∷ rows) pos_step within) in
    let l : x + w ≤ length row = omega (arith, a.0) in
    record {
      copy = take w (drop x row) ∷ rest.copy;
      written = rw (slice_lem x w row l) (rw rest.written refl);
      plane = record {
        rows = omega (arith, rest.plane.rows);
        columns = (length-slice x w row l, rest.plane.columns);
      };
      same = copied step x w h row rows rest.copy rest.same;
    }

-- Rows that are written with a negative stride, from the last row of the plane on.
pub sample-rev_onto :
    (p : Plane) (i j : ℕ)
    → i < length p
    → sample (rev_onto p []) i j ≡ sample p (length p - 1 - i) j
unfolding sample
sample-rev_onto p i j h = rw (get_elem?-rev_onto p [] i h) refl

pub IsPlane-rev_onto : (w h : ℕ) (p : Plane) → IsPlane w h p → IsPlane w h (rev_onto p [])
IsPlane-rev_onto w h p i = record {
  rows = omega (arith, i.rows, length-rev_onto p []);
  columns = All-rev_onto (λ row. length row ≡ w) p [] i.columns tt;
}
