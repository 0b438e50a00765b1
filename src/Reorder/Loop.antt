-- ===== src/Reorder/Loop.antt =====
-- Loop, of VapStd/reorderfilters.c.
pub mod Laws
mod Tests
use cat_syn.Prelude.{◌&&◌, if◌then◌else◌}
use cat_syn.Prelude.Int.{ℤ, pos, ltb_ℤ, eqb_ℤ, int_mul, int_div, int_mod, int_max}
use cat_syn.Plugin.Types.{VideoInfo, NodeRef, ar_initial, ar_all_frames_ready}
use cat_syn.Plugin.VsMap.{VsMap}
use cat_syn.Plugin.Helper.{int_arg, single_clip_free}
use cat_syn.Plugin.Action.{when, return_early, ◌>>=◌, ◌>>◌}
use cat_syn.Plugin.Fetch.{GetFrame, request_frame_filter, get_frame_filter, no_frame, return_frame}
use cat_syn.Plugin.Create.{
  Create, ret_error, get_node, free_node, set_clip, malloc, create_filter, nf_no_cache,
}

pub record LoopData : Type 0 where
  pub node : NodeRef
  pub vi : VideoInfo
  pub num_frames_in : ℤ

pub loop_init : LoopData → VideoInfo
loop_init d = d.vi

pub loop_getframe : LoopData → GetFrame (Unit {0})
loop_getframe d n ar_initial = do request_frame_filter (int_mod n d.num_frames_in) d.node; no_frame
loop_getframe d n ar_all_frames_ready = do
  return_frame (← get_frame_filter (int_mod n d.num_frames_in) d.node)
loop_getframe d n _ = no_frame

-- The frames of the looped clip; `times` is not negative here, and 0 stands for as long as possible.
pub loop_length : ℤ → ℤ → ℤ
loop_length times num_frames = if ltb_ℤ (pos 0) times then int_mul num_frames times else int_max

pub loop_create : VsMap → Create LoopData (Unit {0})
unfolding loop_init
loop_create in_map = do
  let times = int_arg in_map "times"
  when (ltb_ℤ times (pos 0)) (ret_error "Loop: cannot repeat clip a negative number of times")
  node ← get_node in_map "clip" 0
  let num_frames_in = node.vi.num_frames
  when (eqb_ℤ times (pos 1)) do set_clip node; free_node node; return_early
  when (ltb_ℤ (pos 0) times && ltb_ℤ (int_div int_max times) num_frames_in)
      do free_node node; ret_error "Loop: resulting clip is too long"
  malloc
  create_filter "Loop" loop_init nf_no_cache (record {
    node = node;
    vi = record (node.vi) { num_frames = loop_length times num_frames_in };
    num_frames_in = num_frames_in;
  })

-- `singleClipFree`
pub loop_free : LoopData → Create LoopData (Unit {0})
loop_free d = single_clip_free d.node
