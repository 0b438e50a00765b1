-- ===== src/Simple/Crop.antt =====
-- Crop, of VapStd/simplefilters.c.
pub mod Laws
pub mod Wraps
mod Tests
use cat_syn.Prelude.{
  ℕ, Bool, true, false, ◌&&◌, ◌||◌, Option, not, none, some, [], String, drop, ◌==◌, if◌then◌else◌,
}
use cat_syn.Prelude.Int.{ℤ, pos, pos_part, ltb_ℤ, leb_ℤ, eqb_ℤ, int_add, int_sub}
use cat_syn.Plugin.Types.{
  Format, VideoInfo, NodeRef, Frame, pf_compat_bgr32, ar_initial, ar_all_frames_ready,
}
use cat_syn.Plugin.VsMap.{VsMap}
use cat_syn.Plugin.Picture.{
  Plane, bind, bitblt, each_plane, get_read_ptr, get_frame_width, get_frame_height, new_video_frame,
  shift_right, plane_ssw, plane_ssh,
}
use cat_syn.Plugin.Helper.{int64_to_int_s, int_arg, is_given, is_constant_format, single_clip_free}
use cat_syn.Plugin.Action.{when, need, return_early, ◌>>=◌, ◌>>◌}
use cat_syn.Plugin.Fetch.{
  Fetch, GetFrame, request_frame_filter, get_frame_filter, new_frame, free_frame, set_filter_error,
  no_frame, return_frame, to_size_t,
}
use cat_syn.Plugin.Create.{
  Create, ret_error, get_int, get_node, free_node, set_clip, malloc, create_filter,
}
use cat_syn.Simple.Shared.{say, mod_message, leaves_rest, is_odd, swap_fields}

pub record CropData : Type 0 where
  pub node : NodeRef
  pub vi : VideoInfo
  pub x : ℤ
  pub y : ℤ
  pub width : ℤ
  pub height : ℤ

pub crop_init : CropData → VideoInfo
crop_init d = record (d.vi) { height = d.height; width = d.width }

-- The tests of cropVerify on the format.
unfoldable pub crop_verify_format : ℤ → ℤ → ℤ → ℤ → Option Format → Option String → Option String
crop_verify_format x y width height none msg = msg
crop_verify_format x y width height (some fi) msg =
    let ssw = fi.sub_sampling_w in
    let ssh = fi.sub_sampling_h in
    say (leaves_rest y ssh)
      (mod_message "Crop: cropped area needs to have mod " ssh " height offset")
      (say (leaves_rest x ssw)
        (mod_message "Crop: cropped area needs to have mod " ssw " width offset")
        (say (leaves_rest height ssh)
          (mod_message "Crop: cropped area needs to have mod " ssh " height")
          (say (leaves_rest width ssw)
            (mod_message "Crop: cropped area needs to have mod " ssw " width") msg)))

-- `cropVerify`: the message, where there is one.
unfoldable pub crop_verify : ℤ → ℤ → ℤ → ℤ → ℤ → ℤ → Option Format → Option String
unfolding crop_verify_format
crop_verify x y width height srcwidth srcheight fi = crop_verify_format x y width height fi (
    say
      ((ltb_ℤ (pos 0) srcheight && ltb_ℤ (pos 0) srcwidth)
        && (ltb_ℤ srcheight (int_add height y) || ltb_ℤ srcwidth (int_add width x)))
      "Crop: cropped area extends beyond frame dimensions"
      (say (leb_ℤ width (pos 0) || leb_ℤ height (pos 0))
        "Crop: negative/zero cropping dimensions not allowed"
        (say (ltb_ℤ y (pos 0) || ltb_ℤ x (pos 0)) "Crop: negative corner coordinates not allowed"
          none)))

-- The first row that is kept; a compat BGR frame is stored upside down.
unfoldable pub crop_top : CropData → Frame → ℤ
crop_top d src =
    if src.format.id == pf_compat_bgr32
    then int_sub (int_sub (get_frame_height src 0) d.height) d.y
    else d.y

-- The loop body over the planes. The offsets are not negative once they are verified.
unfoldable pub crop_plane : CropData → ℤ → Frame → Frame → ℕ → Option Plane
crop_plane d y src dst p = bind (get_read_ptr src p) λ rows.
    bitblt 1 (pos_part (shift_right d.x (plane_ssw src.format p)))
      (to_size_t (shift_right d.width (plane_ssw src.format p)))
      (to_size_t (get_frame_height dst p))
      (drop (pos_part (shift_right y (plane_ssh src.format p))) rows)

-- The rest of cropGetframe, after the verification.
pub crop_copy : CropData → ℤ → Frame → Fetch (Unit {0}) (Option Frame)
crop_copy d y src = do
  let dst = new_video_frame src.format d.width d.height src []
  planes ← need (each_plane (crop_plane d y src dst) 0 src.format.num_planes)
  new_frame dst
  free_frame src
  let copied = record dst { planes = planes }
  return_frame (if is_odd d.y then swap_fields copied else copied)

pub crop_getframe : CropData → GetFrame (Unit {0})
unfolding crop_copy
crop_getframe d n ar_initial = do request_frame_filter n d.node; no_frame
crop_getframe d n ar_all_frames_ready = do
  src ← get_frame_filter n d.node
  let y = crop_top d src
  elim (crop_verify d.x y d.width d.height (get_frame_width src 0) (get_frame_height src 0)
      (some src.format)) [
        | some msg ↦ do free_frame src; set_filter_error msg; no_frame
        | none ↦ crop_copy d y src
      ]
crop_getframe d n _ = no_frame

-- The verification and the rest, which both create functions end with.
crop_create : CropData → Create CropData (Unit {0})
unfolding crop_init
crop_create d = elim (crop_verify d.x d.y d.width d.height d.vi.width d.vi.height d.vi.format) [
  | some msg ↦ do free_node d.node; ret_error msg
  | none ↦ do malloc; create_filter "Crop" crop_init 0 d
]

pub crop_abs_create : VsMap → Create CropData (Unit {0})
unfolding crop_create
crop_abs_create in_map = do
  let x = if is_given in_map "left" then int_arg in_map "left" else int_arg in_map "x"
  let y = if is_given in_map "top" then int_arg in_map "top" else int_arg in_map "y"
  height ← get_int in_map "height" 0
  width ← get_int in_map "width" 0
  node ← get_node in_map "clip" 0
  crop_create (record {
    node = node;
    vi = node.vi;
    x = x;
    y = y;
    width = int64_to_int_s width;
    height = int64_to_int_s height;
  })

pub crop_rel_create : VsMap → Create CropData (Unit {0})
unfolding crop_create
crop_rel_create in_map = do
  node ← get_node in_map "clip" 0
  let vi = node.vi
  when (not (is_constant_format vi))
      do free_node node; ret_error "Crop: constant format and dimensions needed"
  let x = int_arg in_map "left"
  let y = int_arg in_map "top"
  let height = int_sub (int_sub vi.height y) (int_arg in_map "bottom")
  let width = int_sub (int_sub vi.width x) (int_arg in_map "right")
  when (eqb_ℤ x (pos 0) && eqb_ℤ y (pos 0) && eqb_ℤ width vi.width && eqb_ℤ height vi.height)
      do set_clip node; free_node node; return_early
  crop_create (record { node = node; vi = vi; x = x; y = y; width = width; height = height })

-- `singleClipFree`
pub crop_free : CropData → Create CropData (Unit {0})
crop_free d = single_clip_free d.node
