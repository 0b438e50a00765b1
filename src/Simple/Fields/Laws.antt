-- ===== src/Simple/Fields/Laws.antt =====
-- The fields that SeparateFields delivers.
use cat_syn.Prelude.{
  ℕ, zero, suc, ◌+◌, ◌*◌, ◌/◌, ◌%◌, ◌^◌, ◌≤◌, ◌<◌, ◌≡◌, refl, ◌∙◌, sym, ap, Bool, true, false,
  Option, some, List, [], arith, drop, if◌then◌else◌,
}
use cat_syn.Prelude.Int.{ℤ, pos, wrap32, int_div}
use cat_syn.Plugin.Types.{Format, Frame}
use cat_syn.Plugin.VsMap.{VsMap, prop_set_int, prop_delete_key}
use cat_syn.Plugin.Picture.{
  Plane, each_plane, plane_ssw, plane_ssh, plane_width, plane_height, get_frame_width,
  get_frame_height, new_video_frame, unsigned32,
}
use cat_syn.Plugin.Picture.Frames.{
  IsFrame, IsPainted, IsDrawn-congr, painted, bitblt-IsDrawn, read-IsDrawn, sample_at,
  sample_at_lem, size_lem, image,
}
use cat_syn.Plugin.Fetch.{FrameSource, run_frame, source, frame, find_input_self, to_size_t}
use cat_syn.Simple.Fields.{
  SeparateFieldsData, low_bit, effective_tff, xor, field_plane, bit, separate_copy,
  separate_fields_getframe,
}
use native.Mathlib.Nat.{div-add-mod, mul-div_right, one-le-pow}

-- A height that the subsampling divides, doubled.
pub double_div : (h s : ℕ) → h % 2 ^ s ≡ 0 → h * 2 / 2 ^ s ≡ h / 2 ^ s * 2
double_div h s e =
    let whole : h * 2 ≡ 2 ^ s * (h / 2 ^ s * 2) = omega (arith, div-add-mod h (2 ^ s)) in
    rw whole (mul-div_right (h / 2 ^ s * 2) (one-le-pow s 2 (omega arith)))

pos_of_mul : (a k h : ℕ) → h ≡ a * k → 0 < h → 0 < k
pos_of_mul a zero h e p = omega arith
pos_of_mul a (suc k) h e p = omega arith

pub div-pos : (h s : ℕ) → h % 2 ^ s ≡ 0 → 0 < h → 0 < h / 2 ^ s
div-pos h s e pos_h = pos_of_mul (2 ^ s) (h / 2 ^ s) h (omega (arith, div-add-mod h (2 ^ s))) pos_h

-- The first row of a field.
abbrev pub first_row : Bool → ℕ
first_row true = 0
first_row false = 1

first_row-le : (top : Bool) → first_row top ≤ 1
first_row-le true = omega arith
first_row-le false = omega arith

drop-first :
    (top : Bool) (rows : Plane) → (if top then rows else drop 1 rows) ≡ drop (first_row top) rows
drop-first true rows = refl
drop-first false rows = refl

-- A clip of frames of one format, `w` columns and twice `h` rows, with `h` whole in each plane.
pub record IsTall (w h : ℕ) (src : Frame) : Type 0 where
  pub frame : IsFrame src
  pub width : src.width ≡ w
  pub height : src.height ≡ h * 2
  pub whole : (p : ℕ) → h % 2 ^ plane_ssh src.format p ≡ 0

abbrev pub field : Frame → Bool → ℕ → ℕ → ℕ → Option ℕ
field src top p i j = sample_at src p (first_row top + i * 2) j

pub field-IsPainted :
    (top : Bool) (w h : ℕ) (src dst : Frame)
    → IsTall w h src
    → dst.format ≡ src.format
    → dst.width ≡ w
    → dst.height ≡ h
    → IsPainted src.format w h (field_plane top src dst) (field src top)
unfolding field_plane get_frame_width get_frame_height
field-IsPainted top w h src dst t ef ew eh =
    painted src.format w h _ (field src top) (omega (arith, t.frame.width_pos, t.width))
      (omega (arith, t.frame.width_fits, t.width)) (omega (arith, t.frame.height_pos, t.height))
      (omega (arith, t.frame.height_fits, t.height))
      λ p lt.
        let (q, eq, sized) = t.frame.each p lt in
        let ssw = plane_ssw src.format p in
        let ssh = plane_ssh src.format p in
        let wide : to_size_t (wrap32 (pos (w / 2 ^ ssw))) ≡ w / 2 ^ ssw =
          size_lem w ssw (omega (arith, t.frame.width_fits, t.width)) in
        let tall : to_size_t (wrap32 (pos (h / 2 ^ ssh))) ≡ h / 2 ^ ssh =
          size_lem h ssh (omega (arith, t.frame.height_fits, t.height)) in
        let twice : plane_height src p ≡ h / 2 ^ ssh * 2 =
          rw t.height (double_div h ssh (t.whole p)) in
        let some_rows : 0 < h / 2 ^ ssh =
          div-pos h ssh (t.whole p) (omega (arith, t.frame.height_pos, t.height)) in
        read-IsDrawn src p (w / 2 ^ ssw) (h / 2 ^ ssh) _ _ eq (
          rw (ef, ew, eh, wide, tall, drop-first top q)
            (IsDrawn-congr (w / 2 ^ ssw) (h / 2 ^ ssh)
              (λ i j hi hj.
                let z : 0 + j ≡ j = omega arith in
                rw z (sym (sample_at_lem src p (first_row top + i * 2) j eq)))
              (bitblt-IsDrawn 2 0 (first_row top) (w / 2 ^ ssw) (h / 2 ^ ssh) (plane_width src p)
                (plane_height src p) q (omega arith) sized (rw t.width (omega arith))
                (omega (arith, twice, first_row-le top, some_rows))
                (omega (arith, twice, first_row-le top)))))

-- A run of separateFieldsGetframe that finds a field order.
separate_run :
    (d : SeparateFieldsData) (serve : FrameSource → Frame) (n : ℤ) (src : Frame) (format : Format)
    (tff : Bool) {planes : List Plane}
    → serve (source d.node (int_div n (pos 2))) ≡ src
    → d.modify_duration ≡ false
    → d.vi.format ≡ some format
    → effective_tff d.tff src.props ≡ some tff
    → let top = xor (low_bit n) tff in
      let dst = new_video_frame format d.vi.width d.vi.height src [] in
      each_plane (field_plane top src dst) 0 format.num_planes ≡ some planes
      → run_frame (separate_fields_getframe d) serve n
        ≡ frame
            (record dst {
              planes = planes;
              props = prop_delete_key (prop_set_int src.props "_Field" (bit top)) "_FieldBased";
            })
            0
            0
unfolding separate_fields_getframe separate_copy
separate_run d serve n src format tff {planes} e m ef et w = ground (
  arith,
  find_input_self (source d.node (int_div n (pos 2))) (serve (source d.node (int_div n (pos 2))))
      [],
)

-- What SeparateFields, leaving the durations alone, makes of a frame of a clip with twice as many rows.
pub separate_fields_delivers :
    (d : SeparateFieldsData) (serve : FrameSource → Frame) (n : ℤ) (w h : ℕ) (tff : Bool)
    (src : Frame)
    → serve (source d.node (int_div n (pos 2))) ≡ src
    → let top = xor (low_bit n) tff in
      d.modify_duration ≡ false
      → d.vi.format ≡ some src.format
      → d.vi.width ≡ pos w
      → d.vi.height ≡ pos h
      → IsTall w h src
      → effective_tff d.tff src.props ≡ some tff
      → (planes : List Plane) × (run_frame (separate_fields_getframe d) serve n
          ≡ frame
              (image src.format w h planes
                (prop_delete_key (prop_set_int src.props "_Field" (bit top)) "_FieldBased"))
              0
              0)
        × ((props : VsMap)
            → IsFrame (image src.format w h planes props)
              × ((p i j : ℕ)
                  → p < src.format.num_planes
                  → i < h / 2 ^ plane_ssh src.format p
                  → j < w / 2 ^ plane_ssw src.format p
                  → sample_at (image src.format w h planes props) p i j ≡ field src top p i j))
separate_fields_delivers d serve n w h tff src e m ef ew eh t et =
    let top = xor (low_bit n) tff in
    let dst = new_video_frame src.format d.vi.width d.vi.height src [] in
    let uw : unsigned32 d.vi.width ≡ w = rw ew (omega (arith, t.frame.width_fits, t.width)) in
    let uh : unsigned32 d.vi.height ≡ h = rw eh (omega (arith, t.frame.height_fits, t.height)) in
    let c = field-IsPainted top w h src dst t refl uw uh in
    let props = prop_delete_key (prop_set_int src.props "_Field" (bit top)) "_FieldBased" in
    let shape : record dst { planes = c.planes; props = props }
        ≡ image src.format w h c.planes props =
      cc (uw, uh) in
    (
      c.planes,
      separate_run d serve n src src.format tff e m ef et c.written
          ∙ ap (λ (r : Frame). frame r 0 0) shape,
      λ props. (c.frame props, c.same props),
    )
