-- ===== src/Simple/AddBorders/Frames.antt =====
-- The frame that AddBorders delivers.
use cat_syn.Prelude.{
  ℕ, zero, suc, ◌+◌, ◌/◌, ◌%◌, ◌^◌, ◌<◌, ◌≡◌, refl, ◌∙◌, ap, false, none, some, List, [], arith,
  get_elem?, if◌then◌else◌, ◌==◌,
}
use cat_syn.Prelude.Int.{ℤ, pos, int_mod, int_add, int_add-pos}
use cat_syn.Plugin.Types.{Format, Frame}
use cat_syn.Plugin.Picture.{
  Plane, bind, each_plane, plane_ssw, plane_ssh, get_frame_width, get_frame_height, new_video_frame,
  unsigned32,
}
use cat_syn.Plugin.Picture.Frames.{IsFrame, sample_at, image, first_width, first_height}
use cat_syn.Plugin.Fetch.{FrameSource, run_frame, source, frame, find_input_self}
use cat_syn.Simple.Shared.{say-none, leaves_rest, is_odd, swap_fields, swapped}
use cat_syn.Simple.AddBorders.{
  AddBordersData, add_borders_verify, fill_value, border_plane, border_copy, add_borders_getframe,
}
use cat_syn.Simple.AddBorders.Laws.{border-IsPainted, bordered}

divides : (a k : ℕ) → leaves_rest (pos a) k ≡ false → a % 2 ^ k ≡ 0
unfolding int_mod
divides a k e = ground arith

divides_planes :
    (a ss : ℕ) → leaves_rest (pos a) ss ≡ false → (p : ℕ) → a % 2 ^ (if p == 0 then 0 else ss) ≡ 0
divides_planes a ss e zero = omega arith
divides_planes a ss e (suc p) = let z : (suc p == 0) ≡ false = ground arith in rw z (divides a ss e)

record IsAligned (fi : Format) (l r t b : ℕ) : Type 0 where
  left : leaves_rest (pos l) fi.sub_sampling_w ≡ false
  right : leaves_rest (pos r) fi.sub_sampling_w ≡ false
  top : leaves_rest (pos t) fi.sub_sampling_h ≡ false
  bottom : leaves_rest (pos b) fi.sub_sampling_h ≡ false

add_borders_verify-IsAligned :
    (fi : Format) (l r t b : ℕ)
    → add_borders_verify (pos l) (pos r) (pos t) (pos b) (some fi) ≡ none
    → IsAligned fi l r t b
unfolding add_borders_verify
add_borders_verify-IsAligned fi l r t b e =
    let (bottom, e1) = say-none _ _ _ e in
    let (top, e2) = say-none _ _ _ e1 in
    let (right, e3) = say-none _ _ _ e2 in
    record { left = (say-none _ _ _ e3).0; right = right; top = top; bottom = bottom }

-- A run that gets through the verification.
add_borders_run :
    (d : AddBordersData) (serve : FrameSource → Frame) (n : ℤ) (src : Frame) (format : Format)
    {planes : List Plane}
    → serve (source d.node n) ≡ src
    → add_borders_verify d.left d.right d.top d.bottom (some src.format) ≡ none
    → d.vi.format ≡ some format
    → let dst =
        new_video_frame src.format
          (int_add (int_add (get_frame_width src 0) d.left) d.right)
          (int_add (int_add (get_frame_height src 0) d.top) d.bottom)
          src
          [] in
      each_plane (border_plane d format src dst) 0 src.format.num_planes ≡ some planes
      → let bordered = record dst { planes = planes } in
        run_frame (add_borders_getframe d) serve n
        ≡ frame (if is_odd d.top then swap_fields bordered else bordered) 0 0
unfolding add_borders_getframe border_copy
add_borders_run d serve n src format e v ef w =
    ground (arith, find_input_self (source d.node n) (serve (source d.node n)) [])

-- What AddBorders makes of a frame that it accepts.
pub record IsBordered (d : AddBordersData) (serve : FrameSource → Frame) (n : ℤ) (src : Frame)
    (l r t b : ℕ) : Type 0 where
  pub image : Frame
  pub delivered : run_frame (add_borders_getframe d) serve n ≡ frame image 0 0
  pub frame : IsFrame image
  pub format : image.format ≡ src.format
  pub width : image.width ≡ src.width + l + r
  pub height : image.height ≡ src.height + t + b
  pub shade : ℕ → ℕ
  pub samples :
      (p i j : ℕ)
      → p < src.format.num_planes
      → i < (src.height + t + b) / 2 ^ plane_ssh src.format p
      → j < (src.width + l + r) / 2 ^ plane_ssw src.format p
      → sample_at image p i j ≡ bordered shade src l t p i j

sum_size :
    (size a c : ℕ) (x y z : ℤ)
    → x ≡ pos size
    → y ≡ pos a
    → z ≡ pos c
    → size + a + c < 2147483648
    → unsigned32 (int_add (int_add x y) z) ≡ size + a + c
sum_size size a c x y z ex ey ez small =
    let inner : int_add (pos size) (pos a) ≡ pos (size + a) = int_add-pos size a (omega arith) in
    let outer : int_add (pos (size + a)) (pos c) ≡ pos (size + a + c) =
      int_add-pos (size + a) c small in
    rw (ex, ey, ez, inner, outer) (omega arith)

module _ (d : AddBordersData) (serve : FrameSource → Frame) (format : Format) (shade : ℕ → ℕ) where
  pub IsBordered-frame :
      (n : ℤ) (l r t b : ℕ) (src : Frame)
      → serve (source d.node n) ≡ src
      → IsFrame src
      → d.left ≡ pos l
      → d.right ≡ pos r
      → d.top ≡ pos t
      → d.bottom ≡ pos b
      → d.vi.format ≡ some format
      → ((p : ℕ)
          → p < src.format.num_planes
          → bind (get_elem? d.color p) (fill_value format.bytes_per_sample) ≡ some (shade p))
      → add_borders_verify d.left d.right d.top d.bottom (some src.format) ≡ none
      → src.width + l + r < 2147483648
      → src.height + t + b < 2147483648
      → IsBordered d serve n src l r t b
  IsBordered-frame n l r t b src e f el er et eb ef colors v fw fh =
      let v' : add_borders_verify (pos l) (pos r) (pos t) (pos b) (some src.format) ≡ none =
        rw (← el, ← er, ← et, ← eb) v in
      let a = add_borders_verify-IsAligned src.format l r t b v' in
      let ssw = src.format.sub_sampling_w in
      let ssh = src.format.sub_sampling_h in
      let dst =
        new_video_frame src.format (int_add (int_add (get_frame_width src 0) d.left) d.right)
          (int_add (int_add (get_frame_height src 0) d.top) d.bottom) src [] in
      let ew : dst.width ≡ src.width + l + r =
        sum_size src.width l r _ d.left d.right (first_width src f) el er fw in
      let eh : dst.height ≡ src.height + t + b =
        sum_size src.height t b _ d.top d.bottom (first_height src f) et eb fh in
      let c =
        border-IsPainted d format shade l r t b src dst f el er et eb colors
          (divides_planes l ssw a.left) (divides_planes r ssw a.right) (divides_planes t ssh a.top)
          (divides_planes b ssh a.bottom) fw fh refl ew in
      let made = record dst { planes = c.planes } in
      let props = (if is_odd d.top then swap_fields made else made).props in
      let image = image src.format (src.width + l + r) (src.height + t + b) c.planes props in
      let shape : record made { props = props } ≡ image = cc (ew, eh) in
      record {
        image = image;
        delivered =
            add_borders_run d serve n src format e v ef c.written
            ∙ ap (λ (k : Frame). frame k 0 0) (swapped (is_odd d.top) made ∙ shape);
        frame = c.frame props;
        format = refl;
        width = refl;
        height = refl;
        shade = shade;
        samples = c.same props;
      }
