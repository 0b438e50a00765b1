-- ===== src/Simple/Flip/Laws.antt =====
-- What the flips deliver.
use cat_syn.Prelude.{
  ℕ, zero, suc, ◌+◌, ◌-◌, ◌*◌, ◌≤◌, ◌<◌, ◌≡◌, refl, ◌∙◌, sym, Bool, true, false, Option, some, List,
  [], ◌∷◌, arith, length, get_elem?, take, drop, rev_onto, get_elem?-rev_onto, length-rev_onto,
  get_elem?-take, if◌then◌else◌,
}
use cat_syn.Prelude.Int.{pos, wrap32}
use cat_syn.Plugin.Types.{Frame}
use cat_syn.Plugin.Picture.{
  Plane, plane_ssw, plane_ssh, plane_width, plane_height, get_frame_width, get_frame_height,
  unsigned32,
}
use cat_syn.Plugin.Picture.Planes.{
  IsPlane, sample, slice_lem, length-slice, sample-cons, sample_head, sample-rev_onto,
  IsPlane-rev_onto,
}
use cat_syn.Plugin.Picture.Frames.{
  IsFrame, IsPainted, IsDrawn, IsDrawn-congr, painted, bitblt-IsDrawn, read-IsDrawn, sample_at,
  sample_at_lem, size_lem, first_width, first_height,
}
use cat_syn.Plugin.Fetch.{to_size_t}
use cat_syn.Simple.Flip.{same_size, flip_vertical_plane, flip_rows, flip_horizontal_plane}
use cat_syn.Simple.Flip.Mirror.{reflect, IsMirror}

reversed_row :
    (w j : ℕ) (row : List ℕ) (p q : Plane)
    → w ≤ length row
    → j < w
    → sample (rev_onto (take w (drop 0 row)) [] ∷ p) 0 j ≡ sample (row ∷ q) 0 (w - 1 - j)
reversed_row w j row p q l h =
    let n : length (take w (drop 0 row)) ≡ w = length-slice 0 w row (omega arith) in
    sample_head _ p j
    ∙ get_elem?-rev_onto (take w (drop 0 row)) [] j (omega arith)
    ∙ rw n (get_elem?-take w row (w - 1 - j) (omega arith))
    ∙ sym (sample_head row q (w - 1 - j))

flip_rows-IsDrawn :
    (w h : ℕ) (rows : Plane)
    → IsPlane w h rows
    → IsDrawn w h (flip_rows w h rows) (λ i j. sample rows i (w - 1 - j))
unfolding flip_rows
flip_rows-IsDrawn w zero rows t = record {
  plane = [];
  written = refl;
  sized = record { rows = refl; columns = tt };
  same = λ i j hi hj. absurd (omega arith);
}
flip_rows-IsDrawn w (suc h) [] t = absurd (omega (arith, t.rows))
flip_rows-IsDrawn w (suc h) (x ∷ rows) t =
    let rest =
      flip_rows-IsDrawn w h rows (record { rows = omega (arith, t.rows); columns = t.columns.1 }) in
    let lx : 0 + w ≤ length x = omega (arith, t.columns.0) in
    record {
      plane = rev_onto (take w (drop 0 x)) [] ∷ rest.plane;
      written = rw (slice_lem 0 w x lx, rest.written) refl;
      sized = record {
        rows = omega (arith, rest.sized.rows);
        columns = (
          omega (arith, length-rev_onto (take w (drop 0 x)) [], length-slice 0 w x lx),
          rest.sized.columns,
        );
      };
      same = same w h x rows rest.plane (omega (arith, t.columns.0)) rest.same;
    }
  where
    same :
        (w h : ℕ) (x : List ℕ) (rows copy : Plane)
        → w ≤ length x
        → ((i j : ℕ) → i < h → j < w → sample copy i j ≡ sample rows i (w - 1 - j))
        → (i j : ℕ) → i < suc h
        → j < w
        → sample (rev_onto (take w (drop 0 x)) [] ∷ copy) i j ≡ sample (x ∷ rows) i (w - 1 - j)
    same w h x rows copy l rest zero j hi hj = reversed_row w j x copy rows l hj
    same w h x rows copy l rest (suc i) j hi hj =
        sample-cons _ copy i j ∙ rest i j (omega arith) hj ∙ sym (sample-cons x rows i (w - 1 - j))

-- A plane with its rows written from the last one upwards.
rev_onto-IsDrawn :
    (w h : ℕ) {o : Option Plane} {F : ℕ → ℕ → Option ℕ}
    → (d : IsDrawn w h o F) → IsDrawn w h (some (rev_onto d.plane [])) (λ i j. F (h - 1 - i) j)
rev_onto-IsDrawn w h d =
    let n = d.sized.rows in
    record {
      plane = rev_onto d.plane [];
      written = refl;
      sized = IsPlane-rev_onto w h d.plane d.sized;
      same = λ i j hi hj.
          sample-rev_onto d.plane i j (omega arith) ∙ rw n (d.same (h - 1 - i) j (omega arith) hj);
    }

pub same_size_lem :
    (src : Frame) (planes : List Plane)
    → IsFrame src
    → same_size src planes ≡ record src { planes = planes }
same_size_lem src planes f =
    let ew : unsigned32 (get_frame_width src 0) ≡ src.width =
      rw (first_width src f) (omega (arith, f.width_fits)) in
    let eh : unsigned32 (get_frame_height src 0) ≡ src.height =
      rw (first_height src f) (omega (arith, f.height_fits)) in
    cc (ew, eh)

-- The samples of the mirror image.
abbrev mirrored : Bool → Bool → Frame → ℕ → ℕ → ℕ → Option ℕ
mirrored v h src p i j =
    sample_at src p (reflect v (plane_height src p) i) (reflect h (plane_width src p) j)

-- The planes that a loop paints with them are those of a mirror image.
pub painted-IsMirror :
    (v h : Bool) (src : Frame) (f : ℕ → Option Plane)
    → (c : IsPainted src.format src.width src.height f (mirrored v h src))
    → IsMirror v h src (record src { planes = c.planes })
painted-IsMirror v h src f c = record {
  frame = c.frame src.props;
  format = refl;
  width = refl;
  height = refl;
  props = refl;
  samples = c.same src.props;
}

pub flip_vertical-IsPainted :
    (src : Frame)
    → IsFrame src
    → IsPainted src.format src.width src.height (flip_vertical_plane src) (mirrored true false src)
unfolding flip_vertical_plane get_frame_width get_frame_height
flip_vertical-IsPainted src f =
    painted src.format src.width src.height _ (mirrored true false src) f.width_pos f.width_fits
      f.height_pos f.height_fits
      λ p lt.
        let (q, eq, sized) = f.each p lt in
        let w = plane_width src p in
        let h = plane_height src p in
        let ew : unsigned32 (get_frame_width src 0) ≡ src.width =
          rw (first_width src f) (omega (arith, f.width_fits)) in
        let wide : to_size_t (wrap32 (pos w)) ≡ w =
          size_lem src.width (plane_ssw src.format p) f.width_fits in
        let tall : to_size_t (wrap32 (pos h)) ≡ h =
          size_lem src.height (plane_ssh src.format p) f.height_fits in
        let d =
          bitblt-IsDrawn 1 0 0 w h w h q (omega arith) sized (omega arith) (omega arith)
            (omega arith) in
        read-IsDrawn src p w h _ _ eq (
          rw (ew, wide, tall, d.written)
            (IsDrawn-congr w h
              (λ i j hi hj.
                let a : 0 + (h - 1 - i) * 1 ≡ h - 1 - i = omega arith in
                let b : 0 + j ≡ j = omega arith in
                rw (a, b) (sym (sample_at_lem src p (h - 1 - i) j eq)))
              (rev_onto-IsDrawn w h d)))

pub flip_horizontal-IsPainted :
    (flip : Bool) (src : Frame)
    → IsFrame src
    → IsPainted src.format src.width src.height
        (flip_horizontal_plane flip src)
        (mirrored flip true src)
unfolding flip_horizontal_plane get_frame_width get_frame_height
flip_horizontal-IsPainted flip src f =
    painted src.format src.width src.height _ (mirrored flip true src) f.width_pos f.width_fits
      f.height_pos f.height_fits
      λ p lt.
        let (q, eq, sized) = f.each p lt in
        let w = plane_width src p in
        let h = plane_height src p in
        let wide : to_size_t (wrap32 (pos w)) ≡ w =
          size_lem src.width (plane_ssw src.format p) f.width_fits in
        let tall : to_size_t (wrap32 (pos h)) ≡ h =
          size_lem src.height (plane_ssh src.format p) f.height_fits in
        let d = flip_rows-IsDrawn w h q sized in
        read-IsDrawn src p w h _ _ eq (rw (wide, tall, d.written) (turned flip src p w h q d eq))
  where
    turned :
        (flip : Bool) (src : Frame) (p w h : ℕ) (q : Plane)
        → (d : IsDrawn w h (flip_rows w h q) (λ i j. sample q i (w - 1 - j)))
        → get_elem? src.planes p ≡ some q
        → IsDrawn w h
            (some (if flip then rev_onto d.plane [] else d.plane))
            (λ i j. sample_at src p (reflect flip h i) (w - 1 - j))
    turned true src p w h q d eq =
        IsDrawn-congr w h (λ i j hi hj. sym (sample_at_lem src p (h - 1 - i) (w - 1 - j) eq))
          (rev_onto-IsDrawn w h d)
    turned false src p w h q d eq = record {
      plane = d.plane;
      written = refl;
      sized = d.sized;
      same = λ i j hi hj. d.same i j hi hj ∙ sym (sample_at_lem src p i (w - 1 - j) eq);
    }
