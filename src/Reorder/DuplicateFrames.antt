-- ===== src/Reorder/DuplicateFrames.antt =====
-- DuplicateFrames, of VapStd/reorderfilters.c.
pub mod Laws
pub mod Frames
mod Tests
use cat_syn.Prelude.{ℕ, Bool, List, [], ◌∷◌, ◌&&◌, ◌||◌, not, if◌then◌else◌}
use cat_syn.Prelude.Int.{ℤ, pos, pos_part, ltb_ℤ, eqb_ℤ, int_add, int_sub}
use cat_syn.Plugin.Types.{VideoInfo, NodeRef, ar_initial, ar_all_frames_ready}
use cat_syn.Plugin.VsMap.{VsMap, prop_num_elements}
use cat_syn.Plugin.Clips.{read_ints}
use cat_syn.Plugin.Qsort.{Qsort}
use cat_syn.Plugin.Action.{when, ◌>>=◌, ◌>>◌}
use cat_syn.Plugin.Fetch.{
  GetFrame, request_frame_filter, get_frame_filter, set_frame_data, get_frame_data, no_frame,
  return_frame,
}
use cat_syn.Plugin.Create.{
  Create, ret_error, get_node, free_node, malloc, free, create_filter, nf_no_cache,
}
use cat_syn.Reorder.Shared.{compare_ints}

pub record DuplicateFramesData : Type 0 where
  pub node : NodeRef
  pub vi : VideoInfo
  pub dups : List ℤ
  pub num_dups : ℤ

pub duplicate_frames_init : DuplicateFramesData → VideoInfo
duplicate_frames_init d = d.vi

-- The loop over the duplicated frames, which stops at the first that n has not passed.
unfoldable pub duplicate_index : ℤ → List ℤ → ℤ
duplicate_index n [] = n
duplicate_index n (x ∷ rest) =
    let earlier = duplicate_index (int_sub n (pos 1)) rest in if ltb_ℤ x n then earlier else n

pub duplicate_frames_getframe : DuplicateFramesData → GetFrame ℤ
duplicate_frames_getframe d n ar_initial = do
  let frame = duplicate_index n d.dups
  set_frame_data frame
  request_frame_filter frame d.node
  no_frame
duplicate_frames_getframe d n ar_all_frames_ready = do
  frame ← get_frame_data
  return_frame (← get_frame_filter frame d.node)
duplicate_frames_getframe d n _ = no_frame

-- `duplicateFramesFree`
pub duplicate_frames_free : DuplicateFramesData → Create DuplicateFramesData (Unit {0})
duplicate_frames_free d = do free_node d.node; free; free

abbrev pub bad_duplicate : ℤ → ℤ → Bool
bad_duplicate num_frames x =
    ltb_ℤ x (pos 0) || (not (eqb_ℤ num_frames (pos 0)) && ltb_ℤ (int_sub num_frames (pos 1)) x)

abbrev pub fail_duplicate : NodeRef → Create DuplicateFramesData (Unit {0})
fail_duplicate node = do
  free_node node
  free
  ret_error "DuplicateFrames: out of bounds frame number"

pub duplicate_frames_create : Qsort compare_ints → VsMap → Create DuplicateFramesData (Unit {0})
unfolding duplicate_frames_init
duplicate_frames_create qsort in_map = do
  node ← get_node in_map "clip" 0
  let num_frames = node.vi.num_frames
  let num_dups = prop_num_elements in_map "frames"
  malloc
  given ←
      read_ints in_map "frames" (bad_duplicate num_frames) (fail_duplicate node) 0
        (pos_part num_dups)
  let dups = qsort.sort given
  when (ltb_ℤ (int_add num_frames num_dups) num_frames)
      do free_node node; free; ret_error "DuplicateFrames: resulting clip is too long"
  malloc
  create_filter "DuplicateFrames" duplicate_frames_init nf_no_cache (record {
    node = node;
    vi = record (node.vi) { num_frames = int_add num_frames num_dups };
    dups = dups;
    num_dups = num_dups;
  })
