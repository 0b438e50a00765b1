-- ===== src/Plugin/Picture/Frames.antt =====
-- Frames whose planes have the sizes that their format gives them, and the loop over the planes.
use cat_syn.Prelude.{
  ℕ, zero, suc, ◌+◌, ◌/◌, ◌^◌, ◌≤◌, ◌<◌, ◌≡◌, refl, Option, some, List, [], ◌∷◌, arith, length,
  get_elem?, subst, list_ext, sym, ap, drop, length-drop, ◌*◌, ◌∙◌,
}
use cat_syn.Prelude.Int.{pos, wrap32, wrap32_id}
use cat_syn.Plugin.Types.{Format, Frame}
use cat_syn.Plugin.VsMap.{VsMap}
use cat_syn.Plugin.Fetch.{to_size_t}
use cat_syn.Plugin.Picture.{
  Plane, bind, bitblt, get_read_ptr, each_plane, plane_width, plane_height, plane_ssw, plane_ssh,
  get_frame_width, get_frame_height,
}
use cat_syn.Plugin.Picture.Planes.{IsPlane, sample, plane_ext, bitblt-IsCopy, All-drop, sample-drop}
use native.Mathlib.Nat.{div-le_self, div-one}

-- A frame as `create_frame` makes it: each plane has its size, and the sizes fit an int.
pub record IsFrame (f : Frame) : Type 0 where
  pub count : length f.planes ≡ f.format.num_planes
  pub each :
      (p : ℕ)
      → p < f.format.num_planes
      → (q : Plane) × (get_elem? f.planes p ≡ some q)
        × IsPlane (plane_width f p) (plane_height f p) q
  pub width_pos : 0 < f.width
  pub height_pos : 0 < f.height
  pub width_fits : f.width < 2147483648
  pub height_fits : f.height < 2147483648

pub get_frame_width_lem :
    (f : Frame) (p : ℕ) → IsFrame f → get_frame_width f p ≡ pos (plane_width f p)
unfolding get_frame_width
get_frame_width_lem f p i =
    wrap32_id (pos (plane_width f p))
      (ground (arith, div-le_self f.width (2 ^ plane_ssw f.format p), i.width_fits))

pub get_frame_height_lem :
    (f : Frame) (p : ℕ) → IsFrame f → get_frame_height f p ≡ pos (plane_height f p)
unfolding get_frame_height
get_frame_height_lem f p i =
    wrap32_id (pos (plane_height f p))
      (ground (arith, div-le_self f.height (2 ^ plane_ssh f.format p), i.height_fits))

module _ (P : ℕ → Plane → Type 0) where
  places :
      (start count : ℕ) (q : Plane) (qs : List Plane)
      → P start q
      → ((i : ℕ) → i < count → (r : Plane) × (get_elem? qs i ≡ some r) × P (suc start + i) r)
      → (i : ℕ) → i < suc count
      → (r : Plane) × (get_elem? (q ∷ qs) i ≡ some r) × P (start + i) r
  places start count q qs g gs zero l = (q, refl, ground (arith, g))
  places start count q qs g gs (suc i) l =
      let (r, e, m) = gs i (omega arith) in
      let w : suc start + i ≡ start + suc i = omega arith in (r, e, subst (λ k. P k r) w m)

  -- What the loop makes, where each round makes a plane.
  each_plane_lem :
      (f : ℕ → Option Plane) (start count : ℕ)
      → ((p : ℕ) → start ≤ p → p < start + count → (q : Plane) × (f p ≡ some q) × P p q)
      → (qs : List Plane) × (each_plane f start count ≡ some qs)
        × (length qs ≡ count)
        × ((i : ℕ) → i < count → (q : Plane) × (get_elem? qs i ≡ some q) × P (start + i) q)
  unfolding each_plane
  each_plane_lem f start zero h = ([], refl, refl, λ i l. absurd (omega arith))
  each_plane_lem f start (suc count) h =
      let (q, e, g) = h start (omega arith) (omega arith) in
      let (qs, es, l, gs) =
        each_plane_lem f (suc start) count (λ p a b. h p (omega arith) (omega arith)) in
      (q ∷ qs, rw e (rw es refl), omega (arith, l), places start count q qs g gs)

  all_planes :
      (f : ℕ → Option Plane) (count : ℕ)
      → ((p : ℕ) → p < count → (q : Plane) × (f p ≡ some q) × P p q)
      → (qs : List Plane) × (each_plane f 0 count ≡ some qs)
        × (length qs ≡ count)
        × ((i : ℕ) → i < count → (q : Plane) × (get_elem? qs i ≡ some q) × P i q)
  all_planes f count h =
      let (qs, e, l, gs) = each_plane_lem f 0 count (λ p a b. h p (omega arith)) in
      let z : (i : ℕ) → 0 + i ≡ i = λ i. omega arith in
      (qs, e, l, λ i lt. let (q, eq, g) = gs i lt in (q, eq, subst (λ k. P k q) (z i) g))

-- The sample in row i and column j of plane p.
unfoldable pub sample_at : Frame → ℕ → ℕ → ℕ → Option ℕ
unfolding sample
sample_at f p i j = bind (get_elem? f.planes p) λ q. sample q i j

pub sample_at_lem :
    (f : Frame) (p i j : ℕ) {q : Plane}
    → get_elem? f.planes p ≡ some q
    → sample_at f p i j ≡ sample q i j
unfolding sample_at
sample_at_lem f p i j e = rw e refl

-- Two frames of one format and size with the same samples have the same planes.
pub planes_ext :
    (f g : Frame)
    → IsFrame f
    → IsFrame g
    → f.format ≡ g.format
    → f.width ≡ g.width
    → f.height ≡ g.height
    → ((p i j : ℕ)
        → p < f.format.num_planes
        → i < plane_height f p
        → j < plane_width f p
        → sample_at f p i j ≡ sample_at g p i j)
    → f.planes ≡ g.planes
planes_ext f g s t ef ew eh same = list_ext f.planes g.planes (cc (s.count, t.count, ef)) λ p l.
    let pl : p < f.format.num_planes = omega (arith, s.count) in
    let (q, eq, iq) = s.each p pl in
    let (r, er, ir) = t.each p (subst (λ (k : Format). p < k.num_planes) ef pl) in
    let w : plane_width g p ≡ plane_width f p = cc (ef, ew) in
    let h : plane_height g p ≡ plane_height f p = cc (ef, eh) in
    let jr : IsPlane (plane_width f p) (plane_height f p) r = rw (← w, ← h) ir in
    let e : q ≡ r = plane_ext (plane_width f p) (plane_height f p) q r iq jr λ i j hi hj.
      sym (sample_at_lem f p i j eq) ∙ same p i j pl hi hj ∙ sample_at_lem g p i j er in
    cc

abbrev pub image : Format → ℕ → ℕ → List Plane → VsMap → Frame
image format w h planes props = record {
  format = format;
  width = w;
  height = h;
  planes = planes;
  props = props;
}

-- A loop over the planes makes the planes of a frame, whose samples `F` gives.
pub record IsPainted (format : Format) (w h : ℕ) (f : ℕ → Option Plane) (F : ℕ → ℕ → ℕ → Option ℕ)
    : Type 0 where
  pub planes : List Plane
  pub written : each_plane f 0 format.num_planes ≡ some planes
  pub frame : (props : VsMap) → IsFrame (image format w h planes props)
  pub same :
      (props : VsMap) (p i j : ℕ)
      → p < format.num_planes
      → i < h / 2 ^ plane_ssh format p
      → j < w / 2 ^ plane_ssw format p
      → sample_at (image format w h planes props) p i j ≡ F p i j

-- One round of it.
pub record IsDrawn (v k : ℕ) (o : Option Plane) (F : ℕ → ℕ → Option ℕ) : Type 0 where
  pub plane : Plane
  pub written : o ≡ some plane
  pub sized : IsPlane v k plane
  pub same : (i j : ℕ) → i < k → j < v → sample plane i j ≡ F i j

pub IsDrawn-congr :
    (v k : ℕ) {o : Option Plane} {F G : ℕ → ℕ → Option ℕ}
    → ((i j : ℕ) → i < k → j < v → F i j ≡ G i j)
    → IsDrawn v k o F
    → IsDrawn v k o G
IsDrawn-congr v k same d = record {
  plane = d.plane;
  written = d.written;
  sized = d.sized;
  same = λ i j hi hj. d.same i j hi hj ∙ same i j hi hj;
}

-- What getFrameWidth and getFrameHeight give of a size that fits an int, as a size_t.
pub size_lem : (n k : ℕ) → n < 2147483648 → to_size_t (wrap32 (pos (n / 2 ^ k))) ≡ n / 2 ^ k
unfolding wrap32
size_lem n k lt = ground (arith, div-le_self n (2 ^ k))

-- A round that copies with vs_bitblt, from row y of the plane on.
pub bitblt-IsDrawn :
    (step x y w h v k : ℕ) (rows : Plane)
    → 0 < step
    → IsPlane v k rows
    → x + w ≤ v
    → y ≤ k
    → y + h * step < k + step
    → IsDrawn w h (bitblt step x w h (drop y rows)) (λ i j. sample rows (y + i * step) (x + j))
bitblt-IsDrawn step x y w h v k rows hs size fits start end =
    let c =
      bitblt-IsCopy step x w h v (drop y rows) hs
        (All-drop (λ row. length row ≡ v) y rows size.columns) fits
        (omega (arith, length-drop y rows, size.rows)) in
    record {
      plane = c.copy;
      written = c.written;
      sized = c.plane;
      same = λ i j hi hj. c.same i j hi hj ∙ sample-drop y rows (i * step) (x + j);
    }

-- A round that reads a plane of the source.
pub read-IsDrawn :
    (src : Frame) (p w h : ℕ) (f : Plane → Option Plane) (F : ℕ → ℕ → Option ℕ) {q : Plane}
    → get_elem? src.planes p ≡ some q
    → IsDrawn w h (f q) F
    → IsDrawn w h (bind (get_read_ptr src p) f) F
unfolding get_read_ptr
read-IsDrawn src p w h f F e d = rw e d

pub painted :
    (format : Format) (w h : ℕ) (f : ℕ → Option Plane) (F : ℕ → ℕ → ℕ → Option ℕ)
    → 0 < w
    → w < 2147483648
    → 0 < h
    → h < 2147483648
    → ((p : ℕ)
        → p < format.num_planes
        → IsDrawn (w / 2 ^ plane_ssw format p) (h / 2 ^ plane_ssh format p) (f p) (F p))
    → IsPainted format w h f F
painted format w h f F w0 w1 h0 h1 each =
    let (qs, e, l, gs) =
      all_planes
        (λ p q.
          IsPlane (w / 2 ^ plane_ssw format p) (h / 2 ^ plane_ssh format p) q
          × ((i j : ℕ)
              → i < h / 2 ^ plane_ssh format p
              → j < w / 2 ^ plane_ssw format p
              → sample q i j ≡ F p i j))
        f format.num_planes
        (λ p lt. let d = each p lt in (d.plane, d.written, (d.sized, d.same))) in
    record {
      planes = qs;
      written = e;
      frame = λ props. record {
        count = l;
        each = λ p lt. let (q, eq, g) = gs p lt in (q, eq, g.0);
        width_pos = w0;
        height_pos = h0;
        width_fits = w1;
        height_fits = h1;
      };
      same = λ props p i j lt hi hj.
          let (q, eq, g) = gs p lt in
          sample_at_lem (image format w h qs props) p i j eq ∙ g.1 i j hi hj;
    }

-- The whole frame's size is that of its first plane.
pub first_width : (f : Frame) → IsFrame f → get_frame_width f 0 ≡ pos f.width
first_width f i =
    let one : f.width / 2 ^ 0 ≡ f.width = div-one f.width in get_frame_width_lem f 0 i ∙ ap pos one

pub first_height : (f : Frame) → IsFrame f → get_frame_height f 0 ≡ pos f.height
first_height f i =
    let one : f.height / 2 ^ 0 ≡ f.height = div-one f.height in
    get_frame_height_lem f 0 i ∙ ap pos one
