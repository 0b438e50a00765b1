-- ===== src/Simple/Crop/Laws.antt =====
-- What Crop delivers.
use cat_syn.Prelude.{
  ℕ, ◌+◌, ◌*◌, ◌/◌, ◌%◌, ◌^◌, ◌≤◌, ◌<◌, ◌≡◌, refl, ◌∙◌, sym, ap, subst, true, false, ◌&&◌, ◌||◌,
  String, Option, none, some, List, [], arith, if◌then◌else◌,
}
use cat_syn.Prelude.Int.{
  ℤ, pos, negsuc, pos_part, ltb_ℤ, leb_ℤ, int_add, int_add-pos, wrap32, ◌≤ℤ◌, ◌<ℤ◌, pos_of_nonneg,
}
use cat_syn.Plugin.Types.{Format, Frame, NodeRef}
use cat_syn.Plugin.VsMap.{VsMap, prop_get_node}
use cat_syn.Plugin.Helper.{is_given}
use cat_syn.Plugin.Create.{Settles, invoke}
use cat_syn.Plugin.Picture.{
  Plane, each_plane, plane_ssw, plane_ssh, get_frame_width, get_frame_height, new_video_frame,
  shift_right, unsigned32, plane_width, plane_height,
}
use cat_syn.Plugin.Picture.Frames.{
  IsFrame, IsPainted, painted, bitblt-IsDrawn, read-IsDrawn, IsDrawn-congr, size_lem, sample_at,
  sample_at_lem, image, first_width, first_height,
}
use cat_syn.Plugin.Fetch.{FrameSource, run_frame, source, frame, find_input_self, to_size_t}
use cat_syn.Simple.Shared.{say-none, is_odd, swap_fields, swapped}
use cat_syn.Simple.Crop.{
  CropData, crop_verify, crop_verify_format, crop_top, crop_plane, crop_copy, crop_getframe,
  crop_create, crop_abs_create, crop_rel_create, crop_free,
}
use native.Mathlib.Nat.{le-div_iff_mul-le, div-mul-le_self, one-le-pow, div-le_self}

-- What the verification has seen to, where the two sums do not overflow.
record IsInside (x y w h : ℤ) (sw sh : ℕ) : Type 0 where
  x_nonneg : pos 0 ≤ℤ x
  y_nonneg : pos 0 ≤ℤ y
  w_pos : pos 0 <ℤ w
  h_pos : pos 0 <ℤ h
  columns : pos_part x + pos_part w ≤ sw
  rows : pos_part y + pos_part h ≤ sh

crop_verify_format-none :
    (x y w h : ℤ) (fi : Format) (msg : Option String)
    → crop_verify_format x y w h (some fi) msg ≡ none
    → msg ≡ none
unfolding crop_verify_format
crop_verify_format-none x y w h fi msg e =
    (say-none _ _ _ (say-none _ _ _ (say-none _ _ _ (say-none _ _ _ e).1).1).1).1

inside :
    (x y w h : ℤ) (sw sh : ℕ)
    → 0 < sw
    → 0 < sh
    → pos_part x + pos_part w < 2147483648
    → pos_part y + pos_part h < 2147483648
    → (ltb_ℤ y (pos 0) || ltb_ℤ x (pos 0)) ≡ false
    → (leb_ℤ w (pos 0) || leb_ℤ h (pos 0)) ≡ false
    → ((ltb_ℤ (pos 0) (pos sh) && ltb_ℤ (pos 0) (pos sw))
        && (ltb_ℤ (pos sh) (int_add h y) || ltb_ℤ (pos sw) (int_add w x)))
      ≡ false
    → IsInside x y w h sw sh
inside (pos x) (pos y) (pos w) (pos h) sw sh w0 h0 wx hy e f g = record {
  x_nonneg = omega arith;
  y_nonneg = omega arith;
  w_pos = ground arith;
  h_pos = ground arith;
  columns = ground (arith, int_add-pos w x, int_add-pos h y);
  rows = ground (arith, int_add-pos w x, int_add-pos h y);
}
inside (negsuc x) y w h sw sh w0 h0 wx hy e f g = ground arith
inside x (negsuc y) w h sw sh w0 h0 wx hy e f g = ground arith
inside x y (negsuc w) h sw sh w0 h0 wx hy e f g = ground arith
inside x y w (negsuc h) sw sh w0 h0 wx hy e f g = ground arith

crop_verify-IsInside :
    (x y w h : ℤ) (sw sh : ℕ) (fi : Format)
    → 0 < sw
    → 0 < sh
    → pos_part x + pos_part w < 2147483648
    → pos_part y + pos_part h < 2147483648
    → crop_verify x y w h (pos sw) (pos sh) (some fi) ≡ none
    → IsInside x y w h sw sh
unfolding crop_verify
crop_verify-IsInside x y w h sw sh fi w0 h0 wx hy e =
    let (far, e1) = say-none _ _ _ (crop_verify_format-none x y w h fi _ e) in
    let (flat, e2) = say-none _ _ _ e1 in
    inside x y w h sw sh w0 h0 wx hy (say-none _ _ _ e2).0 flat far

pub div_fits : (a b v k : ℕ) → a + b ≤ v → a / 2 ^ k + b / 2 ^ k ≤ v / 2 ^ k
div_fits a b v k h =
    (le-div_iff_mul-le {k = 2 ^ k} (one-le-pow k 2 (omega arith))).1
      (omega (arith, div-mul-le_self a (2 ^ k), div-mul-le_self b (2 ^ k)))

-- The window at column x and row y, sample by sample.
abbrev pub window : Frame → ℕ → ℕ → ℕ → ℕ → ℕ → Option ℕ
window src x y p i j =
    sample_at src p (y / 2 ^ plane_ssh src.format p + i) (x / 2 ^ plane_ssw src.format p + j)

crop-IsPainted :
    (d : CropData) (x y w h : ℕ) (src : Frame)
    → IsFrame src
    → d.x ≡ pos x
    → d.width ≡ pos w
    → d.height ≡ pos h
    → 0 < w
    → 0 < h
    → x + w ≤ src.width
    → y + h ≤ src.height
    → IsPainted src.format w h
        (crop_plane d (pos y) src (new_video_frame src.format d.width d.height src []))
        (window src x y)
unfolding crop_plane shift_right get_frame_height
crop-IsPainted d x y w h src f ex ew eh w0 h0 cols rows =
    rw (ex, ew, eh)
      (painted src.format w h _ (window src x y) w0 (omega (arith, f.width_fits)) h0
        (omega (arith, f.height_fits))
        λ p lt.
          let (q, eq, sized) = f.each p lt in
          let ssw = plane_ssw src.format p in
          let ssh = plane_ssh src.format p in
          let hw : h % 4294967296 ≡ h = omega (arith, f.height_fits) in
          let tall : to_size_t (wrap32 (pos (h % 4294967296 / 2 ^ ssh))) ≡ h / 2 ^ ssh =
            rw hw (size_lem h ssh (omega (arith, f.height_fits))) in
          let wide : w / 2 ^ ssw % 18446744073709551616 ≡ w / 2 ^ ssw =
            omega (arith, div-le_self w (2 ^ ssw), f.width_fits) in
          let below = div_fits y h src.height ssh rows in
          read-IsDrawn src p (w / 2 ^ ssw) (h / 2 ^ ssh) _ _ eq (
            rw (wide, tall)
              (IsDrawn-congr (w / 2 ^ ssw) (h / 2 ^ ssh)
                (λ i j hi hj.
                  let one : y / 2 ^ ssh + i * 1 ≡ y / 2 ^ ssh + i = omega arith in
                  rw one (sym (sample_at_lem src p (y / 2 ^ ssh + i) (x / 2 ^ ssw + j) eq)))
                (bitblt-IsDrawn 1 (x / 2 ^ ssw) (y / 2 ^ ssh) (w / 2 ^ ssw) (h / 2 ^ ssh)
                  (plane_width src p) (plane_height src p) q (omega arith) sized
                  (div_fits x w src.width ssw cols) (omega (arith, below))
                  (omega (arith, below))))))

-- A run that gets through the verification.
crop_run :
    (d : CropData) (serve : FrameSource → Frame) (n : ℤ) (src : Frame) {planes : List Plane}
    → serve (source d.node n) ≡ src
    → crop_verify d.x
        (crop_top d src)
        d.width
        d.height
        (get_frame_width src 0)
        (get_frame_height src 0)
        (some src.format)
      ≡ none
    → each_plane
        (crop_plane d (crop_top d src) src (new_video_frame src.format d.width d.height src []))
        0
        src.format.num_planes
      ≡ some planes
    → let copied = new_video_frame src.format d.width d.height src planes in
      run_frame (crop_getframe d) serve n
      ≡ frame (if is_odd d.y then swap_fields copied else copied) 0 0
unfolding crop_getframe crop_copy
crop_run d serve n src {planes} e v w =
    ground (arith, find_input_self (source d.node n) (serve (source d.node n)) [])

-- A well-formed frame in the source's format that is the window of the source of the given size.
pub record IsWindow (src : Frame) (x y : ℕ) (w h : ℤ) (dst : Frame) : Type 0 where
  pub frame : IsFrame dst
  pub format : dst.format ≡ src.format
  pub width : pos dst.width ≡ w
  pub height : pos dst.height ≡ h
  pub samples :
      (p i j : ℕ)
      → p < src.format.num_planes
      → i < plane_height dst p
      → j < plane_width dst p
      → sample_at dst p i j ≡ window src x y p i j

-- Where cropVerify accepts the frame, and neither of the sums in it overflows, Crop delivers the
-- window of the frame at its corner, of its size: each sample is that of the source at the place
-- moved by the corner. Nothing is read from outside of the source, all of the new frame is written,
-- and no reference and no memory is left over.
pub crop_delivers :
    (d : CropData) (serve : FrameSource → Frame) (n : ℤ) (src : Frame)
    → serve (source d.node n) ≡ src
    → let y = crop_top d src in
      IsFrame src
      → crop_verify d.x y d.width d.height (pos src.width) (pos src.height) (some src.format) ≡ none
      → pos_part d.x + pos_part d.width < 2147483648
      → pos_part y + pos_part d.height < 2147483648
      → (dst : Frame) × (run_frame (crop_getframe d) serve n ≡ frame dst 0 0)
        × IsWindow src (pos_part d.x) (pos_part y) d.width d.height dst
crop_delivers d serve n src e f v wx hy =
    let y = crop_top d src in
    let ins =
      crop_verify-IsInside d.x y d.width d.height src.width src.height src.format f.width_pos
        f.height_pos wx hy v in
    let ey : y ≡ pos (pos_part y) = pos_of_nonneg y ins.y_nonneg in
    let ew : d.width ≡ pos (pos_part d.width) = pos_of_nonneg d.width (omega (arith, ins.w_pos)) in
    let eh : d.height ≡ pos (pos_part d.height) =
      pos_of_nonneg d.height (omega (arith, ins.h_pos)) in
    let c =
      crop-IsPainted d (pos_part d.x) (pos_part y) (pos_part d.width) (pos_part d.height) src f
        (pos_of_nonneg d.x ins.x_nonneg) ew eh (omega (arith, ins.w_pos)) (omega (arith, ins.h_pos))
        ins.columns ins.rows in
    let copied = new_video_frame src.format d.width d.height src c.planes in
    let k = (if is_odd d.y then swap_fields copied else copied).props in
    let uw : unsigned32 d.width ≡ pos_part d.width =
      rw ew (omega (arith, f.width_fits, ins.columns)) in
    let uh : unsigned32 d.height ≡ pos_part d.height =
      rw eh (omega (arith, f.height_fits, ins.rows)) in
    let dst = image src.format (pos_part d.width) (pos_part d.height) c.planes k in
    let shape : record copied { props = k } ≡ dst = cc (uw, uh) in
    let v' : crop_verify d.x y d.width d.height (get_frame_width src 0) (get_frame_height src 0)
          (some src.format)
        ≡ none =
      rw (first_width src f, first_height src f) v in
    let made : each_plane (crop_plane d y src (new_video_frame src.format d.width d.height src []))
          0 src.format.num_planes
        ≡ some c.planes =
      subst
        (λ z.
          each_plane (crop_plane d z src (new_video_frame src.format d.width d.height src [])) 0
            src.format.num_planes
          ≡ some c.planes)
        (sym ey) c.written in
    (
      dst,
      crop_run d serve n src e v' made
          ∙ ap (λ (r : Frame). frame r 0 0) (swapped (is_odd d.y) copied ∙ shape),
      record {
        frame = c.frame k;
        format = refl;
        width = sym ew;
        height = sym eh;
        samples = c.same k;
      },
    )

-- Given a clip, and for cropAbsCreate a width and a height, a call of one of the create functions
-- never crashes; it holds no node reference and no memory unless it made a filter, and then the free
-- function of that filter releases all that is held.
pub crop_create-Settles :
    (in_map : VsMap) {v : NodeRef}
    → (prop_get_node in_map "clip" 0).0 ≡ some v
    → is_given in_map "width" ≡ true
    → is_given in_map "height" ≡ true
    → Settles crop_free (invoke (crop_abs_create in_map))
      × Settles crop_free (invoke (crop_rel_create in_map))
unfolding crop_abs_create crop_rel_create crop_create crop_free
crop_create-Settles in_map clip w h = (ground arith, ground arith)
