-- ===== src/Simple/Flip.antt =====
-- FlipVertical, FlipHorizontal and Turn180, of VapStd/simplefilters.c.
pub mod Mirror
pub mod Laws
pub mod Twice
mod Tests
use cat_syn.Prelude.{
  ℕ, zero, suc, Bool, true, false, not, ◌||◌, Option, none, some, List, [], ◌∷◌, String, rev_onto,
  ◌==◌, if◌then◌else◌,
}
use cat_syn.Prelude.Int.{ℤ, pos, ltb_ℤ}
use cat_syn.Plugin.Types.{VideoInfo, NodeRef, Frame, ar_initial, ar_all_frames_ready}
use cat_syn.Plugin.VsMap.{VsMap}
use cat_syn.Plugin.Picture.{
  Plane, bind, slice, bitblt, each_plane, get_read_ptr, get_frame_width, get_frame_height,
  new_video_frame,
}
use cat_syn.Plugin.Helper.{SingleClipData, single_clip_init, single_clip_free}
use cat_syn.Plugin.Action.{need, ◌>>=◌, ◌>>◌}
use cat_syn.Plugin.Fetch.{
  Fetch, GetFrame, request_frame_filter, get_frame_filter, new_frame, free_frame, set_filter_error,
  no_frame, return_frame, to_size_t,
}
use cat_syn.Plugin.Create.{Create, get_node, malloc, create_filter}

-- The frame that all planes are written to.
abbrev pub same_size : Frame → List Plane → Frame
same_size src planes =
    new_video_frame src.format (get_frame_width src 0) (get_frame_height src 0) src planes

-- The loop body of flipVerticalGetframe over the planes: vs_bitblt writes upwards from the last row.
unfoldable pub flip_vertical_plane : Frame → ℕ → Option Plane
flip_vertical_plane src p = bind (get_read_ptr src p) λ rows.
    bind
      (bitblt 1 0 (to_size_t (get_frame_width (same_size src []) p))
        (to_size_t (get_frame_height src p)) rows)
      λ copied. some (rev_onto copied [])

pub flip_vertical_getframe : SingleClipData → GetFrame (Unit {0})
flip_vertical_getframe d n ar_initial = do request_frame_filter n d.node; no_frame
flip_vertical_getframe d n ar_all_frames_ready = do
  src ← get_frame_filter n d.node
  planes ← need (each_plane (flip_vertical_plane src) 0 src.format.num_planes)
  new_frame (same_size src [])
  free_frame src
  return_frame (same_size src planes)
flip_vertical_getframe d n _ = no_frame

pub flip_vertical_create : VsMap → Create SingleClipData (Unit {0})
unfolding single_clip_init
flip_vertical_create in_map = do
  node ← get_node in_map "clip" 0
  malloc
  create_filter "FlipVertical" single_clip_init 0 (record { node = node; vi = node.vi })

pub record FlipHorizontalData : Type 0 where
  pub node : NodeRef
  pub flip : Bool

-- `singleClipInit`, which reads the node only.
pub flip_horizontal_init : FlipHorizontalData → VideoInfo
flip_horizontal_init d = d.node.vi

-- `for (x = 0; x <= w; x++) dstp[w - x] = srcp[x]`, row by row.
unfoldable pub flip_rows : ℕ → ℕ → Plane → Option Plane
flip_rows w zero rows = some []
flip_rows w (suc h) [] = none
flip_rows w (suc h) (row ∷ rows) =
    bind (slice 0 w row) λ a. bind (flip_rows w h rows) λ rest. some (rev_onto a [] ∷ rest)

-- The loop body of flipHorizontalGetframe over the planes; with `flip` the rows are written upwards.
unfoldable pub flip_horizontal_plane : Bool → Frame → ℕ → Option Plane
flip_horizontal_plane flip src p = bind (get_read_ptr src p) λ rows.
    bind (flip_rows (to_size_t (get_frame_width src p)) (to_size_t (get_frame_height src p)) rows)
      λ copied. some (if flip then rev_onto copied [] else copied)

-- The cases of the switch.
unfoldable pub supported : ℕ → Bool
supported bytes = (bytes == 1) || (bytes == 2) || (bytes == 4)

-- What the loop over the planes comes to. Where the sample size is not supported, its first round ends
-- the call.
pub flip_horizontal_planes : Bool → Frame → ℕ → Fetch (Unit {0}) (Option Frame)
flip_horizontal_planes flip src zero = do
  new_frame (same_size src [])
  free_frame src
  return_frame (same_size src [])
flip_horizontal_planes flip src (suc count) = elim (supported src.format.bytes_per_sample) [
  | true ↦ do
    planes ← need (each_plane (flip_horizontal_plane flip src) 0 (suc count))
    new_frame (same_size src [])
    free_frame src
    return_frame (same_size src planes)
  | false ↦ do
    new_frame (same_size src [])
    free_frame src
    free_frame (same_size src [])
    set_filter_error "FlipHorizontal: Unsupported sample size"
    no_frame
]

pub flip_horizontal_getframe : FlipHorizontalData → GetFrame (Unit {0})
unfolding flip_horizontal_planes
flip_horizontal_getframe d n ar_initial = do request_frame_filter n d.node; no_frame
flip_horizontal_getframe d n ar_all_frames_ready = do
  src ← get_frame_filter n d.node
  flip_horizontal_planes d.flip src src.format.num_planes
flip_horizontal_getframe d n _ = no_frame

-- The user data says whether the filter is Turn180.
pub flip_horizontal_create : Bool → VsMap → Create FlipHorizontalData (Unit {0})
unfolding flip_horizontal_init
flip_horizontal_create flip in_map = do
  node ← get_node in_map "clip" 0
  malloc
  create_filter (if flip then "Turn180" else "FlipHorizontal") flip_horizontal_init 0
      (record { node = node; flip = flip })
