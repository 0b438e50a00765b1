-- ===== src/Simple/AddBorders.antt =====
-- AddBorders, of VapStd/simplefilters.c.
pub mod Rows
pub mod Laws
pub mod Frames
pub mod Inverse
pub mod Colors
mod Tests
use cat_syn.Prelude.{
  ℕ, zero, suc, ◌-◌, ◌*◌, ◌%◌, ◌^◌, Bool, true, false, not, ◌&&◌, ◌||◌, Option, none, some, List,
  [], ◌∷◌, ◌++◌, String, get_elem?, replicate, drop, ltb, ◌==◌, if◌then◌else◌,
}
use cat_syn.Prelude.Int.{ℤ, pos, pos_part, ltb_ℤ, eqb_ℤ, int_add}
use cat_syn.Plugin.Types.{
  Format, VideoInfo, NodeRef, Frame, ar_initial, ar_all_frames_ready, cm_compat, cm_yuv, cm_y_co_cg,
}
use cat_syn.Plugin.VsMap.{VsMap, prop_num_elements}
use cat_syn.Plugin.Picture.{
  Plane, bind, slice, each_plane, get_read_ptr, get_frame_width, get_frame_height, new_video_frame,
  shift_right, plane_ssw, plane_ssh,
}
use cat_syn.Plugin.Helper.{int_arg, is_compat_format, single_clip_free}
use cat_syn.Plugin.Action.{when, need, pure, return_early, skip, branch, ◌>>=◌, ◌>>◌}
use cat_syn.Plugin.Fetch.{
  Fetch, GetFrame, request_frame_filter, get_frame_filter, new_frame, free_frame, set_filter_error,
  no_frame, return_frame, to_size_t,
}
use cat_syn.Plugin.Create.{Create, ret_error, get_node, free_node, set_clip, malloc, create_filter}
use cat_syn.Simple.Shared.{say, mod_message, leaves_rest, is_odd, swap_fields}

pub record AddBordersData : Type 0 where
  pub node : NodeRef
  pub vi : VideoInfo
  pub left : ℤ
  pub right : ℤ
  pub top : ℤ
  pub bottom : ℤ
  pub color : List ℕ

-- `size += size ? before + after : 0`
unfoldable pub extended : ℤ → ℤ → ℤ → ℤ
extended size before after =
    if eqb_ℤ size (pos 0) then size else int_add size (int_add before after)

pub add_borders_init : AddBordersData → VideoInfo
unfolding extended
add_borders_init d = record (d.vi) {
  height = extended d.vi.height d.top d.bottom;
  width = extended d.vi.width d.left d.right;
}

-- `addBordersVerify`: the message, where there is one.
unfoldable pub add_borders_verify : ℤ → ℤ → ℤ → ℤ → Option Format → Option String
add_borders_verify left right top bottom none = none
add_borders_verify left right top bottom (some fi) =
    let ssw = fi.sub_sampling_w in
    let ssh = fi.sub_sampling_h in
    say (leaves_rest bottom ssh)
      (mod_message "AddBorders: added area needs to have mod " ssh " height")
      (say (leaves_rest top ssh)
        (mod_message "AddBorders: added area needs to have mod " ssh " height")
        (say (leaves_rest right ssw)
          (mod_message "AddBorders: added area needs to have mod " ssw " width")
          (say (leaves_rest left ssw)
            (mod_message "AddBorders: added area needs to have mod " ssw " width") none)))

-- The cases of the switch on the sample size: what vs_memset8, vs_memset16 and vs_memset32 keep of the
-- colour. Another size writes nothing.
unfoldable pub fill_value : ℕ → ℕ → Option ℕ
fill_value bytes color =
    if (bytes == 1) || (bytes == 2) || (bytes == 4) then some (color % 2 ^ (8 * bytes)) else none

-- The loop over the rows of the source: padding, the row, padding.
unfoldable pub pad_rows : ℕ → ℕ → ℕ → ℕ → ℕ → Plane → Option Plane
pad_rows c l w r zero rows = some []
pad_rows c l w r (suc h) [] = none
pad_rows c l w r (suc h) (row ∷ rows) = bind (slice 0 w row) λ a.
    bind (pad_rows c l w r h rows) λ rest. some ((replicate l c ++ (a ++ replicate r c)) ∷ rest)

-- The loop body over the planes. The sizes are not negative.
unfoldable pub border_plane : AddBordersData → Format → Frame → Frame → ℕ → Option Plane
border_plane d format src dst p = bind (get_read_ptr src p) λ rows.
    bind (get_elem? d.color p) λ color. bind (fill_value format.bytes_per_sample color) λ c.
      bind
        (pad_rows c (pos_part (shift_right d.left (plane_ssw src.format p)))
          (to_size_t (get_frame_width src p))
          (pos_part (shift_right d.right (plane_ssw src.format p)))
          (to_size_t (get_frame_height src p)) rows)
        λ middle.
          let line = replicate (to_size_t (get_frame_width dst p)) c in
          some (
            replicate (pos_part (shift_right d.top (plane_ssh src.format p))) line
            ++ (middle
                ++ replicate (pos_part (shift_right d.bottom (plane_ssh src.format p))) line))

-- The rest of addBordersGetframe, after the verification.
pub border_copy : AddBordersData → Frame → Fetch (Unit {0}) (Option Frame)
border_copy d src = do
  let dst =
      new_video_frame src.format (int_add (int_add (get_frame_width src 0) d.left) d.right)
        (int_add (int_add (get_frame_height src 0) d.top) d.bottom) src []
  new_frame dst
  format ← need d.vi.format
  planes ← need (each_plane (border_plane d format src dst) 0 src.format.num_planes)
  free_frame src
  let bordered = record dst { planes = planes }
  return_frame (if is_odd d.top then swap_fields bordered else bordered)

pub add_borders_getframe : AddBordersData → GetFrame (Unit {0})
unfolding border_copy
add_borders_getframe d n ar_initial = do request_frame_filter n d.node; no_frame
add_borders_getframe d n ar_all_frames_ready = do
  src ← get_frame_filter n d.node
  elim (add_borders_verify d.left d.right d.top d.bottom (some src.format)) [
    | some msg ↦ do free_frame src; set_filter_error msg; no_frame
    | none ↦ border_copy d src
  ]
add_borders_getframe d n _ = no_frame

-- `pfCompatYUY2`
abbrev pub pf_compat_yuy2 : ℕ
pf_compat_yuy2 = 9000011

-- `setBlack`; stInteger is 0.
unfoldable pub set_black : Format → List ℕ
set_black f =
    let mid =
      if (f.sample_type == 0) && ((f.color_family == cm_yuv) || (f.color_family == cm_y_co_cg))
      then 2 ^ (f.bits_per_sample - 1)
      else if f.id == pf_compat_yuy2
      then 128
      else 0 in
    0 ∷ mid ∷ mid ∷ []

-- The loop over the colours. `pixel i` is what propGetFloat and the conversion of the double make of
-- the i-th colour, `none` where the conversion reports an error.
unfoldable pub read_colors : (ℕ → Option ℕ) → ℕ → ℕ → Option (List ℕ)
read_colors pixel i zero = some []
read_colors pixel i (suc count) =
    bind (pixel i) λ c. bind (read_colors pixel (suc i) count) λ rest. some (c ∷ rest)

-- The end of addBordersCreate, from the colours on.
pub border_create :
    (ℕ → Option ℕ) → VsMap → AddBordersData → Format → Create AddBordersData (Unit {0})
unfolding add_borders_init
border_create pixel in_map d format =
    let numcomponents = if format.color_family == cm_compat then 3 else format.num_planes in
    let ncolors = prop_num_elements in_map "color" in
    branch (eqb_ℤ ncolors (pos numcomponents))
      (elim (read_colors pixel 0 numcomponents) [
        | none ↦ ret_error "AddBorders: color value out of range"
        | some colors ↦ do
          malloc
          create_filter "AddBorders" add_borders_init 0
              (record d { color = colors ++ drop numcomponents (set_black format) })
      ])
      (do
        when (ltb_ℤ (pos 0) ncolors)
            (ret_error "AddBorders: invalid number of color values specified")
        malloc
        create_filter "AddBorders" add_borders_init 0 (record d { color = set_black format }))

pub add_borders_create : (ℕ → Option ℕ) → VsMap → Create AddBordersData (Unit {0})
unfolding border_create
add_borders_create pixel in_map = do
  let left = int_arg in_map "left"
  let right = int_arg in_map "right"
  let top = int_arg in_map "top"
  let bottom = int_arg in_map "bottom"
  node ← get_node in_map "clip" 0
  when (eqb_ℤ left (pos 0) && eqb_ℤ right (pos 0) && eqb_ℤ top (pos 0) && eqb_ℤ bottom (pos 0))
      do set_clip node; free_node node; return_early
  when (ltb_ℤ left (pos 0) || ltb_ℤ right (pos 0) || ltb_ℤ top (pos 0) || ltb_ℤ bottom (pos 0))
      do free_node node; ret_error "AddBorders: border size to add must not be negative"
  let vi = node.vi
  when (is_compat_format vi) do free_node node; ret_error "AddBorders: compat formats not supported"
  elim vi.format [
    | none ↦ do free_node node; ret_error "AddBorders: input needs to be constant format"
    | some format ↦ elim (add_borders_verify left right top bottom (some format)) [
      | some msg ↦ do free_node node; ret_error msg
      | none ↦
          border_create pixel in_map
            (record {
              node = node;
              vi = vi;
              left = left;
              right = right;
              top = top;
              bottom = bottom;
              color = [];
            })
            format
    ]
  ]

-- `singleClipFree`
pub add_borders_free : AddBordersData → Create AddBordersData (Unit {0})
add_borders_free d = single_clip_free d.node
