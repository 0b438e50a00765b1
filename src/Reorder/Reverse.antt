-- ===== src/Reorder/Reverse.antt =====
-- Reverse, of VapStd/reorderfilters.c.
pub mod Laws
mod Tests
use cat_syn.Prelude.Int.{ℤ, pos, int_sub}
use cat_syn.Plugin.Types.{VideoInfo, NodeRef, ar_initial, ar_all_frames_ready}
use cat_syn.Plugin.VsMap.{VsMap}
use cat_syn.Plugin.Helper.{SingleClipData, single_clip_init, vs_max}
use cat_syn.Plugin.Action.{◌>>=◌, ◌>>◌}
use cat_syn.Plugin.Fetch.{GetFrame, request_frame_filter, get_frame_filter, no_frame, return_frame}
use cat_syn.Plugin.Create.{Create, get_node, malloc, create_filter, nf_no_cache}

-- `VSMAX(numFrames - n - 1, 0)`
reversed_index : SingleClipData → ℤ → ℤ
reversed_index d n = vs_max (int_sub (int_sub d.vi.num_frames n) (pos 1)) (pos 0)

pub reverse_getframe : SingleClipData → GetFrame (Unit {0})
unfolding reversed_index
reverse_getframe d n ar_initial = do request_frame_filter (reversed_index d n) d.node; no_frame
reverse_getframe d n ar_all_frames_ready = do
  return_frame (← get_frame_filter (reversed_index d n) d.node)
reverse_getframe d n _ = no_frame

pub reverse_create : VsMap → Create SingleClipData (Unit {0})
unfolding single_clip_init
reverse_create in_map = do
  node ← get_node in_map "clip" 0
  let d : SingleClipData = record { node = node; vi = node.vi }
  malloc
  create_filter "Reverse" single_clip_init nf_no_cache d
