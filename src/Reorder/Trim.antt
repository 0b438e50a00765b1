-- ===== src/Reorder/Trim.antt =====
-- Trim, of VapStd/reorderfilters.c.
pub mod Laws
mod Tests
use cat_syn.Prelude.{Bool, Option, none, some, ◌==◌, ◌&&◌, ◌||◌, not, if◌then◌else◌}
use cat_syn.Prelude.Int.{ℤ, pos, ltb_ℤ, leb_ℤ, eqb_ℤ, int_add, int_sub}
use cat_syn.Plugin.Types.{VideoInfo, NodeRef, Frame, ar_initial, ar_all_frames_ready}
use cat_syn.Plugin.VsMap.{VsMap, prop_get_int}
use cat_syn.Plugin.Helper.{int64_to_int_s, single_clip_free}
use cat_syn.Plugin.Action.{when, return_early, ◌>>=◌, ◌>>◌}
use cat_syn.Plugin.Fetch.{GetFrame, request_frame_filter, get_frame_filter, no_frame, return_frame}
use cat_syn.Plugin.Create.{
  Create, ret_error, get_node, free_node, set_clip, malloc, create_filter, nf_no_cache,
}

pub record TrimData : Type 0 where
  pub node : NodeRef
  pub vi : VideoInfo
  pub first : ℤ
  pub last : ℤ
  pub length : ℤ
  pub trimlen : ℤ

pub trim_init : TrimData → VideoInfo
trim_init d = record (d.vi) { num_frames = d.trimlen }

pub trim_getframe : TrimData → GetFrame (Unit {0})
trim_getframe d n ar_initial = do request_frame_filter (int_add n d.first) d.node; no_frame
trim_getframe d n ar_all_frames_ready = do
  return_frame (← get_frame_filter (int_add n d.first) d.node)
trim_getframe d n _ = no_frame

-- The test "last frame beyond clip end".
pub trim_beyond : Bool → Bool → ℤ → ℤ → ℤ → ℤ → Bool
trim_beyond lastset lengthset first last length num_frames =
    (lastset && leb_ℤ num_frames last)
    || (lengthset && ltb_ℤ num_frames (int_add first length))
    || leb_ℤ num_frames first

pub trim_length : Bool → Bool → ℤ → ℤ → ℤ → ℤ → ℤ
trim_length lastset lengthset first last length num_frames =
    if lastset
    then int_add (int_sub last first) (pos 1)
    else if lengthset
    then length
    else int_sub num_frames first

pub trim_create : VsMap → Create TrimData (Unit {0})
unfolding trim_init
trim_create in_map = do
  let (first_value, first_err) = prop_get_int in_map "first" 0
  let (last_value, last_err) = prop_get_int in_map "last" 0
  let (length_value, length_err) = prop_get_int in_map "length" 0
  let first = int64_to_int_s first_value
  let firstset = first_err == 0
  let last = int64_to_int_s last_value
  let lastset = last_err == 0
  let length = int64_to_int_s length_value
  let lengthset = length_err == 0
  when (lastset && lengthset) (ret_error "Trim: both last frame and length specified")
  when (lastset && ltb_ℤ last first)
      (ret_error "Trim: invalid last frame specified (last is less than first)")
  when (lengthset && ltb_ℤ length (pos 1))
      (ret_error "Trim: invalid length specified (less than 1)")
  when (ltb_ℤ first (pos 0)) (ret_error "Trim: invalid first frame specified (less than 0)")
  node ← get_node in_map "clip" 0
  let vi = node.vi
  when (trim_beyond lastset lengthset first last length vi.num_frames)
      do free_node node; ret_error "Trim: last frame beyond clip end"
  let trimlen = trim_length lastset lengthset first last length vi.num_frames
  when
      ((not firstset && not lastset && not lengthset)
        || (not (eqb_ℤ trimlen (pos 0)) && eqb_ℤ trimlen vi.num_frames))
      do set_clip node; free_node node; return_early
  malloc
  create_filter "Trim" trim_init nf_no_cache (record {
    node = node;
    vi = vi;
    first = first;
    last = last;
    length = length;
    trimlen = trimlen;
  })

-- `singleClipFree`
pub trim_free : TrimData → Create TrimData (Unit {0})
trim_free d = single_clip_free d.node
