-- ===== src/Simple/Crop/Wraps.antt =====
-- A crop whose sum of the left corner and the width does not fit an int.
use cat_syn.Prelude.{
  ℕ, zero, suc, ◌+◌, ◌/◌, ◌%◌, ◌^◌, ◌≤◌, ◌<◌, ◌≡◌, refl, false, ◌||◌, Option, none, some, [], ◌∷◌,
  arith, length, drop, ◌==◌, leb, All,
}
use cat_syn.Prelude.Int.{ℤ, pos, ltb_ℤ, int_add, int_add-pos, int_mod, wrap32}
use cat_syn.Plugin.Types.{Format, Frame, NodeRef, pf_compat_bgr32}
use cat_syn.Plugin.VsMap.{VsMap, prop_get_int, prop_get_node}
use cat_syn.Plugin.Helper.{int64_to_int_s-pos}
use cat_syn.Plugin.Picture.{
  Plane, bitblt, slice, each_plane, get_frame_width, get_frame_height, get_read_ptr,
  new_video_frame, shift_right,
}
use cat_syn.Plugin.Picture.Planes.{All-drop}
use cat_syn.Plugin.Picture.Frames.{IsFrame, first_width, first_height, size_lem}
use cat_syn.Plugin.Fetch.{FrameSource, run_frame, source, crashed, find_input_self, to_size_t}
use cat_syn.Plugin.Create.{Filter, invoke, created}
use cat_syn.Simple.Shared.{say, leaves_rest}
use native.Mathlib.Nat.{div-one}
use cat_syn.Simple.Crop.{
  CropData, crop_init, crop_verify, crop_verify_format, crop_top, crop_plane, crop_copy,
  crop_create, crop_getframe, crop_abs_create,
}

whole : (a : ℕ) → leaves_rest (pos a) 0 ≡ false
unfolding int_mod
whole a = ground arith

wrapped :
    (x w sw : ℕ)
    → x < 2147483648
    → w < 2147483648
    → 2147483648 ≤ w + x
    → ltb_ℤ (pos sw) (int_add (pos w) (pos x)) ≡ false
unfolding int_add
wrapped x w sw hx hw over = ground arith

-- The test on the right edge is passed: the sum has wrapped.
passes :
    (x y w h sw sh : ℕ)
    → x < 2147483648
    → w < 2147483648
    → 2147483648 ≤ w + x
    → h + y ≤ sh
    → sh < 2147483648
    → (ltb_ℤ (pos sh) (int_add (pos h) (pos y)) || ltb_ℤ (pos sw) (int_add (pos w) (pos x))) ≡ false
passes x y w h sw sh hx hw over rows small =
    ground (arith, int_add-pos h y, wrapped x w sw hx hw over)

-- Rows that are too short cannot be copied.
bitblt-none :
    (step x w h v : ℕ) (rows : Plane)
    → 0 < h
    → All (λ row. length row ≡ v) rows
    → v < x + w
    → bitblt step x w h rows ≡ none
unfolding bitblt slice
bitblt-none step x w zero v rows h0 a short = absurd (omega arith)
bitblt-none step x w (suc h) v [] h0 a short = refl
bitblt-none step x w (suc h) v (row ∷ rows) h0 a short =
    let out : leb (x + w) (length row) ≡ false = ground (arith, a.0) in rw out refl

each_plane-none :
    (f : ℕ → Option Plane) (p count : ℕ) → f p ≡ none → 0 < count → each_plane f p count ≡ none
unfolding each_plane
each_plane-none f p zero e c = absurd (omega arith)
each_plane-none f p (suc count) e c = rw e refl

crop_crashes :
    (d : CropData) (serve : FrameSource → Frame) (n : ℤ) (src : Frame)
    → serve (source d.node n) ≡ src
    → crop_verify d.x
        (crop_top d src)
        d.width
        d.height
        (get_frame_width src 0)
        (get_frame_height src 0)
        (some src.format)
      ≡ none
    → each_plane
        (crop_plane d (crop_top d src) src (new_video_frame src.format d.width d.height src []))
        0
        src.format.num_planes
      ≡ none
    → run_frame (crop_getframe d) serve n ≡ crashed
unfolding crop_getframe crop_copy
crop_crashes d serve n src e v w =
    ground (arith, find_input_self (source d.node n) (serve (source d.node n)) [])

module _ (x y w h : ℕ) (sw sh : ℕ) (fi : Format) where
  crop_verify_wraps :
      x < 2147483648
      → 0 < w
      → w < 2147483648
      → 0 < h
      → 2147483648 ≤ w + x
      → h + y ≤ sh
      → sh < 2147483648
      → fi.sub_sampling_w ≡ 0
      → fi.sub_sampling_h ≡ 0
      → crop_verify (pos x) (pos y) (pos w) (pos h) (pos sw) (pos sh) (some fi) ≡ none
  unfolding crop_verify crop_verify_format say
  crop_verify_wraps hx w0 hw h0 over rows small ew eh =
      let far = passes x y w h sw sh hx hw over rows small in
      rw (ew, eh, whole x, whole y, whole w, whole h) (ground (arith, far))

  crop_plane_wraps :
      (d : CropData) (src : Frame)
      → IsFrame src
      → 0 < src.format.num_planes
      → d.x ≡ pos x
      → d.width ≡ pos w
      → d.height ≡ pos h
      → 0 < h
      → h < 2147483648
      → w < 2147483648
      → src.width < x + w
      → crop_plane d (pos y) src (new_video_frame src.format d.width d.height src []) 0 ≡ none
  unfolding crop_plane shift_right get_frame_height get_read_ptr
  crop_plane_wraps d src f c ex ew eh h0 hs ws far =
      let (q, eq, sized) = f.each 0 c in
      let hw : h % 4294967296 ≡ h = omega arith in
      let tall : to_size_t (wrap32 (pos (h % 4294967296 / 2 ^ 0))) ≡ h / 2 ^ 0 =
        rw hw (size_lem h 0 hs) in
      let one : (k : ℕ) → k / 2 ^ 0 ≡ k = λ k. div-one k in
      let wide : w / 2 ^ 0 % 18446744073709551616 ≡ w = rw (one w) (omega arith) in
      let short : src.width / 2 ^ 0 < x + w = rw (one src.width) far in
      rw (ex, ew, eh, eq)
        (rw (wide, tall, one h, one x)
          (bitblt-none 1 x w h (src.width / 2 ^ 0) (drop (y / 2 ^ 0) q) h0
            (All-drop (λ row. length row ≡ src.width / 2 ^ 0) (y / 2 ^ 0) q sized.columns) short))

  crop_top_lem :
      (d : CropData) (src : Frame)
      → (src.format.id == pf_compat_bgr32) ≡ false
      → d.y ≡ pos y
      → crop_top d src ≡ pos y
  unfolding crop_top
  crop_top_lem d src id e = rw (id, e) refl

-- A crop whose width and left corner are ints but whose sum is not, within the rows of a clip without
-- subsampling: the sum in the test on the right edge wraps, so cropAbsCreate makes the filter, and
-- its getframe function reads beyond the rows of every frame.
pub crop_abs_create_wraps :
    (in_map : VsMap) (v : NodeRef) (fi : Format) (x y w h sw sh : ℕ)
    → (prop_get_node in_map "clip" 0).0 ≡ some v
    → prop_get_int in_map "left" 0 ≡ (pos x, 0)
    → prop_get_int in_map "top" 0 ≡ (pos y, 0)
    → prop_get_int in_map "width" 0 ≡ (pos w, 0)
    → prop_get_int in_map "height" 0 ≡ (pos h, 0)
    → v.vi.format ≡ some fi
    → v.vi.width ≡ pos sw
    → v.vi.height ≡ pos sh
    → fi.sub_sampling_w ≡ 0
    → fi.sub_sampling_h ≡ 0
    → (fi.id == pf_compat_bgr32) ≡ false
    → x < 2147483648
    → 0 < w
    → w < 2147483648
    → 0 < h
    → 2147483648 ≤ w + x
    → h + y ≤ sh
    → sh < 2147483648
    → (f : Filter CropData) × (invoke (crop_abs_create in_map) ≡ created f 1 1)
      × ((serve : FrameSource → Frame) (n : ℤ)
          → let src = serve (source v n) in
            IsFrame src
            → src.format ≡ fi
            → 0 < fi.num_planes
            → src.width ≡ sw
            → src.height ≡ sh
            → run_frame (crop_getframe f.instance_data) serve n ≡ crashed)
unfolding crop_abs_create crop_create
crop_abs_create_wraps in_map v fi x y w h sw sh clip hl ht hw hh ef ew eh sw0 sh0 id xs w0 ws h0
      over rows small =
    let d : CropData = record {
      node = v;
      vi = v.vi;
      x = pos x;
      y = pos y;
      width = pos w;
      height = pos h;
    } in
    let ok = crop_verify_wraps x y w h sw sh fi xs w0 ws h0 over rows small sw0 sh0 in
    (
      record { name = "Crop"; vi = crop_init d; flags = 0; instance_data = d },
      ground (
        arith,
        ok,
        int64_to_int_s-pos x,
        int64_to_int_s-pos y,
        int64_to_int_s-pos w,
        int64_to_int_s-pos h,
      ),
      λ serve n f e c a b.
          let src = serve (source v n) in
          let top : crop_top d src ≡ pos y = crop_top_lem x y w h sw sh fi d src (rw e id) refl in
          let read : crop_verify (pos x) (crop_top d src) (pos w) (pos h) (get_frame_width src 0)
                (get_frame_height src 0) (some src.format)
              ≡ none =
            rw (top, first_width src f, first_height src f, a, b, e) ok in
          crop_crashes d serve n src refl read (
            each_plane-none _ 0 src.format.num_planes
              (rw top (
                crop_plane_wraps x y w h sw sh fi d src f (rw e c) refl refl refl h0 (omega arith)
                  ws (omega (arith, f.width_fits))))
              (rw e c)),
    )
