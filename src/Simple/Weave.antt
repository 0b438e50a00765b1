-- ===== src/Simple/Weave.antt =====
-- DoubleWeave, of VapStd/simplefilters.c.
pub mod Rows
pub mod Laws
pub mod Inverse
mod Tests
use cat_syn.Prelude.{
  ℕ, zero, suc, ◌+◌, Bool, true, false, not, ◌&&◌, Option, none, some, List, [], ◌∷◌, drop, ◌==◌,
  if◌then◌else◌,
}
use cat_syn.Prelude.Int.{ℤ, pos, negsuc, eqb_ℤ, int_add, int_mul}
use cat_syn.Plugin.Types.{Format, VideoInfo, NodeRef, Frame, ar_initial, ar_all_frames_ready}
use cat_syn.Plugin.VsMap.{VsMap, prop_get_int, prop_set_int, prop_delete_key}
use cat_syn.Plugin.Picture.{
  Plane, bind, slice, each_plane, get_read_ptr, get_frame_width, get_frame_height, new_video_frame,
}
use cat_syn.Plugin.Helper.{is_constant_format, single_clip_free}
use cat_syn.Plugin.Action.{when, need, ◌>>=◌, ◌>>◌}
use cat_syn.Plugin.Fetch.{
  Fetch, GetFrame, request_frame_filter, get_frame_filter, new_frame, free_frame, set_filter_error,
  no_frame, return_frame, to_size_t,
}
use cat_syn.Plugin.Create.{Create, ret_error, get_node, free_node, malloc, create_filter}
use cat_syn.Simple.Fields.{low_bit, xor, flag_arg}

pub record DoubleWeaveData : Type 0 where
  pub node : NodeRef
  pub vi : VideoInfo
  pub tff : Option Bool

pub double_weave_init : DoubleWeaveData → VideoInfo
double_weave_init d = d.vi

-- The property "_Field", -1 where there is none.
unfoldable pub field_of : Frame → ℤ
field_of f = let (v, err) = prop_get_int f.props "_Field" 0 in if err == 0 then v else negsuc 0

-- Whether the first of the two frames is the top field, where that can be told.
unfoldable pub first_is_top : Option Bool → ℤ → Frame → Frame → Option Bool
first_is_top tff n src1 src2 =
    if eqb_ℤ (field_of src1) (pos 0) && eqb_ℤ (field_of src2) (pos 1)
    then some false
    else if eqb_ℤ (field_of src1) (pos 1) && eqb_ℤ (field_of src2) (pos 0)
    then some true
    else elim tff [ none ↦ none | some b ↦ some (xor (low_bit n) b) ]

-- The loop over the rows of the two fields.
unfoldable pub weave_rows : ℕ → ℕ → Plane → Plane → Option Plane
weave_rows w zero top btn = some []
weave_rows w (suc h) [] btn = none
weave_rows w (suc h) (a ∷ top) [] = none
weave_rows w (suc h) (a ∷ top) (b ∷ btn) =
    bind (slice 0 w a)
      λ x. bind (slice 0 w b) λ y. bind (weave_rows w h top btn) λ rest. some (x ∷ y ∷ rest)

-- The loop body over the planes.
unfoldable pub weave_plane : Frame → Frame → Frame → ℕ → Option Plane
weave_plane srctop srcbtn dst p = bind (get_read_ptr srctop p) λ top.
    bind (get_read_ptr srcbtn p) λ btn.
      weave_rows (to_size_t (get_frame_width dst p)) (to_size_t (get_frame_height srctop p)) top btn

-- The rest of doubleWeaveGetframe, once it is known which field is which.
pub weave_copy : DoubleWeaveData → Format → Bool → Frame → Frame → Fetch (Unit {0}) (Option Frame)
weave_copy d format first_top src1 src2 = do
  let srctop = if first_top then src1 else src2
  let srcbtn = if first_top then src2 else src1
  let dst = new_video_frame format d.vi.width d.vi.height src1 []
  planes ← need (each_plane (weave_plane srctop srcbtn dst) 0 format.num_planes)
  new_frame dst
  free_frame src1
  free_frame src2
  return_frame (record dst {
    planes = planes;
    props =
        prop_set_int (prop_delete_key dst.props "_Field") "_FieldBased"
          (if first_top then pos 2 else pos 1);
  })

pub double_weave_getframe : DoubleWeaveData → GetFrame (Unit {0})
unfolding weave_copy
double_weave_getframe d n ar_initial = do
  request_frame_filter n d.node
  request_frame_filter (int_add n (pos 1)) d.node
  no_frame
double_weave_getframe d n ar_all_frames_ready = do
  src1 ← get_frame_filter n d.node
  src2 ← get_frame_filter (int_add n (pos 1)) d.node
  elim (first_is_top d.tff n src1 src2) [
    | none ↦ do
      set_filter_error "DoubleWeave: field order could not be determined from frame properties"
      free_frame src1
      free_frame src2
      no_frame
    | some first_top ↦ do format ← need d.vi.format; weave_copy d format first_top src1 src2
  ]
double_weave_getframe d n _ = no_frame

pub double_weave_create : VsMap → Create DoubleWeaveData (Unit {0})
unfolding double_weave_init
double_weave_create in_map = do
  let tff = flag_arg some none in_map "tff"
  node ← get_node in_map "clip" 0
  let vi = record (node.vi) { height = int_mul node.vi.height (pos 2) }
  when (not (is_constant_format vi))
      do free_node node; ret_error "DoubleWeave: clip must have constant format and dimensions"
  malloc
  create_filter "DoubleWeave" double_weave_init 0 (record { node = node; vi = vi; tff = tff })

-- `singleClipFree`
pub double_weave_free : DoubleWeaveData → Create DoubleWeaveData (Unit {0})
double_weave_free d = single_clip_free d.node
