-- ===== src/Simple/Weave/Inverse.antt =====
-- DoubleWeave after SeparateFields.
use cat_syn.Prelude.{
  ℕ, ◌+◌, ◌*◌, ◌/◌, ◌%◌, ◌<◌, ◌≡◌, refl, ◌∙◌, sym, ap, subst, Bool, true, false, not, Option, some,
  List, [], ◌∷◌, arith, if◌then◌else◌, ◌==◌,
}
use cat_syn.Prelude.Int.{ℤ, pos, int_div, int_add, int_add-pos}
use cat_syn.Plugin.Types.{Format, Frame, NodeRef}
use cat_syn.Plugin.VsMap.{VsMap, prop_get_int, prop_set_int, prop_delete_key}
use cat_syn.Plugin.VsMap.Laws.{prop_get_int-set, prop_get_int-delete_other}
use cat_syn.Plugin.Picture.{Plane, each_plane, new_video_frame, unsigned32}
use cat_syn.Plugin.Picture.Frames.{image, planes_ext}
use cat_syn.Plugin.Fetch.{
  FrameSource, run_frame, source, frame, find_input_self, find_input_second, filtered, filtered_lem,
}
use cat_syn.Simple.Fields.{
  SeparateFieldsData, low_bit, effective_tff, xor, bit, separate_fields_getframe,
}
use cat_syn.Simple.Fields.Laws.{IsTall, separate_fields_delivers}
use cat_syn.Simple.Weave.{
  DoubleWeaveData, field_of, first_is_top, weave_plane, weave_copy, double_weave_getframe,
}
use cat_syn.Simple.Weave.Laws.{IsField, weave-IsPainted}

-- A run of doubleWeaveGetframe that can tell the fields.
weave_run :
    (d : DoubleWeaveData) (serve : FrameSource → Frame) (n : ℤ) (src1 src2 : Frame)
    (format : Format) (first_top : Bool) {planes : List Plane}
    → serve (source d.node n) ≡ src1
    → serve (source d.node (int_add n (pos 1))) ≡ src2
    → ((source d.node n).frame_idx == (source d.node (int_add n (pos 1))).frame_idx) ≡ false
    → first_is_top d.tff n src1 src2 ≡ some first_top
    → d.vi.format ≡ some format
    → let dst = new_video_frame format d.vi.width d.vi.height src1 [] in
      each_plane
          (weave_plane (if first_top then src1 else src2) (if first_top then src2 else src1) dst)
          0
          format.num_planes
        ≡ some planes
      → run_frame (double_weave_getframe d) serve n
        ≡ frame
            (record dst {
              planes = planes;
              props =
                  prop_set_int
                    (prop_delete_key src1.props "_Field")
                    "_FieldBased"
                    (if first_top then pos 2 else pos 1);
            })
            0
            0
unfolding double_weave_getframe weave_copy
weave_run d serve n src1 src2 format first_top {planes} e1 e2 ne ft ef w =
    let k = source d.node n in
    let j = source d.node (int_add n (pos 1)) in
    ground (
      arith,
      find_input_self k (serve k) ((j, serve j) ∷ []),
      find_input_second k j (serve k) (serve j) [],
      ne,
    )

field_of-bit :
    (f : Frame) (props : VsMap) (b : Bool)
    → f.props ≡ prop_delete_key (prop_set_int props "_Field" (bit b)) "_FieldBased"
    → field_of f ≡ bit b
unfolding field_of
field_of-bit f props b e =
    let found : prop_get_int f.props "_Field" 0 ≡ (bit b, 0) = rw e (
      prop_get_int-delete_other (prop_set_int props "_Field" (bit b)) "_Field" "_FieldBased" refl
      ∙ prop_get_int-set props "_Field" (bit b)) in
    rw found refl

-- The two fields of a frame tell their order.
first_is_top_lem :
    (tff : Option Bool) (n : ℤ) (f g : Frame) (b : Bool)
    → field_of f ≡ bit b
    → field_of g ≡ bit (not b)
    → first_is_top tff n f g ≡ some b
unfolding first_is_top
first_is_top_lem tff n f g true ef eg = rw (ef, eg) refl
first_is_top_lem tff n f g false ef eg = rw (ef, eg) refl

-- A field of frame k of the source, as the clip of SeparateFields has it.
record IsServed (src : Frame) (w h : ℕ) (top : Bool) (f : Frame) : Type 0 where
  field : IsField w h src top f
  props : f.props ≡ prop_delete_key (prop_set_int src.props "_Field" (bit top)) "_FieldBased"

halved : (n k : ℕ) → n / 2 ≡ k → int_div (pos n) (pos 2) ≡ pos k
unfolding int_div
halved n k e = ap pos e

served :
    (d : SeparateFieldsData) (v : NodeRef) (serve : FrameSource → Frame) (blank : Frame)
    (n k w h : ℕ) (tff : Bool)
    → n / 2 ≡ k
    → n < 2147483648
    → let src = serve (source d.node (pos k)) in
      d.modify_duration ≡ false
      → d.vi.format ≡ some src.format
      → d.vi.width ≡ pos w
      → d.vi.height ≡ pos h
      → IsTall w h src
      → effective_tff d.tff src.props ≡ some tff
      → IsServed src w h
          (xor (low_bit (pos n)) tff)
          (filtered (separate_fields_getframe d) serve blank (source v (pos n)))
served d v serve blank n k w h tff half small m ef ew eh t et =
    let idx : n % 18446744073709551616 ≡ n = omega arith in
    let src = serve (source d.node (pos k)) in
    let here : serve (source d.node (int_div (pos n) (pos 2))) ≡ src =
      ap (λ (a : ℤ). serve (source d.node a)) (halved n k half) in
    let (planes, run, shows) =
      separate_fields_delivers d serve (pos n) w h tff src here m ef ew eh t et in
    let props =
      prop_delete_key (prop_set_int src.props "_Field" (bit (xor (low_bit (pos n)) tff)))
        "_FieldBased" in
    let f = image src.format w h planes props in
    let run' : run_frame (separate_fields_getframe d) serve (pos (source v (pos n)).frame_idx)
        ≡ frame f 0 0 =
      rw idx run in
    subst (λ g. IsServed src w h (xor (low_bit (pos n)) tff) g)
      (sym (filtered_lem (separate_fields_getframe d) serve blank (source v (pos n)) run'))
      (record {
        field = record {
          frame = (shows props).0;
          format = refl;
          width = refl;
          height = refl;
          samples = (shows props).1;
        };
        props = refl;
      })

low_bit-even : (k : ℕ) → low_bit (pos (k * 2)) ≡ false
unfolding low_bit
low_bit-even k = ground arith

low_bit-odd : (k : ℕ) → low_bit (pos (k * 2 + 1)) ≡ true
unfolding low_bit
low_bit-odd k = ground arith

next_frame :
    (v : NodeRef) (n : ℕ)
    → n + 1 < 2147483648
    → ((source v (pos n)).frame_idx == (source v (int_add (pos n) (pos 1))).frame_idx) ≡ false
next_frame v n small = rw (int_add-pos n 1 small) (ground arith)

in_order :
    (w h : ℕ) (src : Frame) (tff : Bool) (f g : Frame)
    → IsField w h src tff f
    → IsField w h src (not tff) g
    → IsField w h src true (if tff then f else g) × IsField w h src false (if tff then g else f)
in_order w h src true f g a b = (a, b)
in_order w h src false f g a b = (b, a)

-- Where SeparateFields, which leaves the durations alone, splits a clip into fields, DoubleWeave puts
-- them together again: frame 2k of the woven clip has all the samples of frame k of the clip, its
-- format and its size, nothing is left held, and the property "_FieldBased" tells the field order that
-- SeparateFields went by, 2 for top field first and 1 for bottom field first.
pub weave-separate :
    (ds : SeparateFieldsData) (dw : DoubleWeaveData) (serve : FrameSource → Frame) (blank : Frame)
    (k w h : ℕ) (tff : Bool)
    → k * 2 + 1 < 2147483648
    → let src = serve (source ds.node (pos k)) in
      ds.modify_duration ≡ false
      → ds.vi.format ≡ some src.format
      → ds.vi.width ≡ pos w
      → ds.vi.height ≡ pos h
      → IsTall w h src
      → effective_tff ds.tff src.props ≡ some tff
      → dw.vi.format ≡ some src.format
      → dw.vi.width ≡ pos w
      → dw.vi.height ≡ pos (h * 2)
      → (props : VsMap) × (run_frame
            (double_weave_getframe dw)
            (filtered (separate_fields_getframe ds) serve blank)
            (pos (k * 2))
          ≡ frame (record src { props = props }) 0 0)
        × (prop_get_int props "_FieldBased" 0 ≡ (if tff then pos 2 else pos 1, 0))
weave-separate ds dw serve blank k w h tff small m ef ew eh t et wf ww wh =
    let src = serve (source ds.node (pos k)) in
    let fields = filtered (separate_fields_getframe ds) serve blank in
    let src1 = fields (source dw.node (pos (k * 2))) in
    let next : int_add (pos (k * 2)) (pos 1) ≡ pos (k * 2 + 1) = int_add-pos (k * 2) 1 small in
    let src2 = fields (source dw.node (pos (k * 2 + 1))) in
    let one : IsServed src w h tff src1 =
      subst (λ b. IsServed src w h (xor b tff) src1) (low_bit-even k)
        (served ds dw.node serve blank (k * 2) k w h tff (omega arith) (omega arith) m ef ew eh t
          et) in
    let two : IsServed src w h (not tff) src2 =
      subst (λ b. IsServed src w h (xor b tff) src2) (low_bit-odd k)
        (served ds dw.node serve blank (k * 2 + 1) k w h tff (omega arith) small m ef ew eh t et) in
    let (a, b) = in_order w h src tff src1 src2 one.field two.field in
    let dst = new_video_frame src.format dw.vi.width dw.vi.height src1 [] in
    let uw : unsigned32 dw.vi.width ≡ w = rw ww (omega (arith, t.frame.width_fits, t.width)) in
    let uh : unsigned32 dw.vi.height ≡ h * 2 =
      rw wh (omega (arith, t.frame.height_fits, t.height)) in
    let c =
      weave-IsPainted w h src (if tff then src1 else src2) (if tff then src2 else src1) dst t a b
        refl uw in
    let props =
      prop_set_int (prop_delete_key src1.props "_Field") "_FieldBased"
        (if tff then pos 2 else pos 1) in
    let same : c.planes ≡ src.planes =
      planes_ext (image src.format w (h * 2) c.planes props) src (c.frame props) t.frame refl
        (sym t.width) (sym t.height) (c.same props) in
    let run =
      weave_run dw fields (pos (k * 2)) src1 src2 src.format tff refl
        (ap (λ (z : ℤ). fields (source dw.node z)) next) (next_frame dw.node (k * 2) small)
        (first_is_top_lem dw.tff (pos (k * 2)) src1 src2 tff
          (field_of-bit src1 src.props tff one.props)
          (field_of-bit src2 src.props (not tff) two.props))
        wf c.written in
    let shape : record dst { planes = c.planes; props = props } ≡ record src { props = props } =
      cc (uw, uh, t.width, t.height, same) in
    (props, run ∙ ap (λ (r : Frame). frame r 0 0) shape, prop_get_int-set _ "_FieldBased" _)
