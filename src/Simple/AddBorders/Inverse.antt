-- ===== src/Simple/AddBorders/Inverse.antt =====
-- Crop after AddBorders.
use cat_syn.Prelude.{
  ℕ, ◌+◌, ◌-◌, ◌/◌, ◌%◌, ◌^◌, ◌<◌, ◌≡◌, refl, ◌∙◌, ap, subst, false, Option, none, some, arith,
  get_elem?, ◌==◌,
}
use cat_syn.Prelude.Int.{ℤ, pos, pos_part}
use cat_syn.Plugin.Types.{Format, Frame, pf_compat_bgr32}
use cat_syn.Plugin.VsMap.{VsMap}
use cat_syn.Plugin.Picture.{bind, plane_ssw, plane_ssh, plane_width, plane_height}
use cat_syn.Plugin.Picture.Frames.{IsFrame, sample_at, planes_ext}
use cat_syn.Plugin.Fetch.{FrameSource, run_frame, source, frame, filtered, filtered_lem}
use cat_syn.Simple.Crop.{CropData, crop_verify, crop_getframe, crop_top}
use cat_syn.Simple.Crop.Laws.{crop_delivers, IsWindow, div_fits}
use cat_syn.Simple.AddBorders.{AddBordersData, add_borders_verify, fill_value, add_borders_getframe}
use cat_syn.Simple.AddBorders.Rows.{padded}
use cat_syn.Simple.AddBorders.Frames.{IsBordered, IsBordered-frame}

-- Inside of the borders are the samples of the source.
padded_inside :
    {A : Type 0} (c : A) (before size : ℕ) (F : ℕ → Option A) (j : ℕ)
    → j < size
    → padded c before size F (before + j) ≡ F j
padded_inside c before size F j h =
    let e : before + j - before ≡ j = omega arith in ground (arith, e)

-- The window inside of the borders is the source.
unbordered :
    (d : AddBordersData) (serve : FrameSource → Frame) (n : ℤ) (src dst : Frame) (l r t b : ℕ)
    → IsFrame src
    → (g : IsBordered d serve n src l r t b)
    → IsWindow g.image l t (pos src.width) (pos src.height) dst
    → dst ≡ record src { props = dst.props }
unbordered d serve n src dst l r t b f g w =
    let format : dst.format ≡ src.format = w.format ∙ g.format in
    let width : dst.width ≡ src.width = cc w.width in
    let height : dst.height ≡ src.height = cc w.height in
    let planes : dst.planes ≡ src.planes =
      planes_ext dst src w.frame f format width height λ p i j hp hi hj.
        let ssw = plane_ssw src.format p in
        let ssh = plane_ssh src.format p in
        let ph : plane_height dst p ≡ plane_height src p = cc (format, height) in
        let pw : plane_width dst p ≡ plane_width src p = cc (format, width) in
        let lt : p < src.format.num_planes = subst (λ (k : Format). p < k.num_planes) format hp in
        let li : t / 2 ^ ssh + i < (src.height + t + b) / 2 ^ ssh =
          omega (arith, div_fits t src.height (src.height + t + b) ssh (omega arith), ph) in
        let lj : l / 2 ^ ssw + j < (src.width + l + r) / 2 ^ ssw =
          omega (arith, div_fits l src.width (src.width + l + r) ssw (omega arith), pw) in
        let inner = g.samples p (t / 2 ^ ssh + i) (l / 2 ^ ssw + j) lt li lj in
        let a : sample_at dst p i j ≡ sample_at g.image p (t / 2 ^ ssh + i) (l / 2 ^ ssw + j) =
          subst
            (λ (k : Format).
              sample_at dst p i j
              ≡ sample_at g.image p (t / 2 ^ plane_ssh k p + i) (l / 2 ^ plane_ssw k p + j))
            g.format
            (w.samples p i j (subst (λ (k : Format). p < k.num_planes) w.format hp) hi hj) in
        a
        ∙ inner
        ∙ padded_inside (g.shade p) (t / 2 ^ ssh) (plane_height src p)
            (λ k.
              padded (g.shade p) (l / 2 ^ ssw) (plane_width src p) (sample_at src p k)
                (l / 2 ^ ssw + j))
            i (rw (← ph) hi)
        ∙ padded_inside (g.shade p) (l / 2 ^ ssw) (plane_width src p) (sample_at src p i) j
            (rw (← pw) hj) in
    cc (planes, format, width, height)

crop_top_lem :
    (c : CropData) (f : Frame) → (f.format.id == pf_compat_bgr32) ≡ false → crop_top c f ≡ c.y
unfolding crop_top
crop_top_lem c f e = rw e refl

same-IsWindow :
    (src dst : Frame) {x x' y y' : ℕ} {w w' h h' : ℤ}
    → x ≡ x'
    → y ≡ y'
    → w ≡ w'
    → h ≡ h'
    → IsWindow src x y w h dst
    → IsWindow src x' y' w' h' dst
same-IsWindow src dst ex ey ew eh k = rw (← ex, ← ey, ← ew, ← eh) k

-- Where AddBorders accepts the borders and the frame, with a fill value for each plane, and the new
-- size fits an int, Crop takes the borders off again where it accepts the bordered frame: with its
-- corner at the left and top border and the size of the source, it delivers all the samples of frame n
-- of the source, with its format and its size, and nothing is left held.
pub crop-add_borders :
    (d : AddBordersData) (c : CropData) (serve : FrameSource → Frame) (blank : Frame)
    (format : Format) (shade : ℕ → ℕ) (n l r t b : ℕ) (src : Frame)
    → serve (source d.node (pos n)) ≡ src
    → n < 2147483648
    → IsFrame src
    → d.left ≡ pos l
    → d.right ≡ pos r
    → d.top ≡ pos t
    → d.bottom ≡ pos b
    → d.vi.format ≡ some format
    → ((p : ℕ)
        → p < src.format.num_planes
        → bind (get_elem? d.color p) (fill_value format.bytes_per_sample) ≡ some (shade p))
    → add_borders_verify d.left d.right d.top d.bottom (some src.format) ≡ none
    → src.width + l + r < 2147483648
    → src.height + t + b < 2147483648
    → (src.format.id == pf_compat_bgr32) ≡ false
    → c.x ≡ pos l
    → c.y ≡ pos t
    → c.width ≡ pos src.width
    → c.height ≡ pos src.height
    → crop_verify c.x c.y c.width c.height
        (pos (src.width + l + r))
        (pos (src.height + t + b))
        (some src.format)
      ≡ none
    → (props : VsMap) × (run_frame
          (crop_getframe c)
          (filtered (add_borders_getframe d) serve blank)
          (pos n)
        ≡ frame (record src { props = props }) 0 0)
crop-add_borders d c serve blank format shade n l r t b src e small f el er et eb ef colors v fw fh
      id cx cy cw ch cv =
    let g =
      IsBordered-frame d serve format shade (pos n) l r t b src e f el er et eb ef colors v fw fh in
    let idx : n % 18446744073709551616 ≡ n = omega arith in
    let here : run_frame (add_borders_getframe d) serve (pos (source c.node (pos n)).frame_idx)
        ≡ frame g.image 0 0 =
      rw idx g.delivered in
    let top : crop_top c g.image ≡ c.y = crop_top_lem c g.image (rw g.format id) in
    let kv : crop_verify c.x (crop_top c g.image) c.width c.height (pos g.image.width)
          (pos g.image.height) (some g.image.format)
        ≡ none =
      rw (top, g.width, g.height, g.format) cv in
    let (dst, run, w) =
      crop_delivers c (filtered (add_borders_getframe d) serve blank) (pos n) g.image
        (filtered_lem (add_borders_getframe d) serve blank (source c.node (pos n)) here) g.frame kv
        (rw (cx, cw) (omega arith)) (rw (top, cy, ch) (omega arith)) in
    let w' : IsWindow g.image l t (pos src.width) (pos src.height) dst =
      same-IsWindow g.image dst (ap pos_part cx) (ap pos_part (top ∙ cy)) cw ch w in
    let shape = unbordered d serve (pos n) src dst l r t b f g w' in
    (dst.props, run ∙ ap (λ (k : Frame). frame k 0 0) shape)
