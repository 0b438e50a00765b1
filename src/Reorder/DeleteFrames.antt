-- ===== src/Reorder/DeleteFrames.antt =====
-- DeleteFrames, of VapStd/reorderfilters.c.
pub mod Laws
pub mod Frames
pub mod Kept
mod Tests
use cat_syn.Prelude.{ℕ, Bool, true, false, List, [], ◌∷◌, ◌&&◌, ◌||◌, not, if◌then◌else◌}
use cat_syn.Prelude.Int.{ℤ, pos, pos_part, ltb_ℤ, leb_ℤ, eqb_ℤ, int_add, int_sub}
use cat_syn.Plugin.Types.{VideoInfo, NodeRef, ar_initial, ar_all_frames_ready}
use cat_syn.Plugin.VsMap.{VsMap, prop_num_elements}
use cat_syn.Plugin.Clips.{read_ints}
use cat_syn.Plugin.Qsort.{Qsort}
use cat_syn.Plugin.Action.{when, ◌>>=◌, ◌>>◌}
use cat_syn.Plugin.Fetch.{
  GetFrame, request_frame_filter, get_frame_filter, set_frame_data, get_frame_data, no_frame,
  return_frame,
}
use cat_syn.Plugin.Create.{
  Create, ret_error, get_node, free_node, malloc, free, create_filter, nf_no_cache,
}
use cat_syn.Reorder.Shared.{compare_ints}

pub record DeleteFramesData : Type 0 where
  pub node : NodeRef
  pub vi : VideoInfo
  pub delete : List ℤ
  pub num_delete : ℤ

pub delete_frames_init : DeleteFramesData → VideoInfo
delete_frames_init d = d.vi

-- The loop over the deleted frames, which stops at the first that n does not reach.
unfoldable pub delete_index : ℤ → List ℤ → ℤ
delete_index n [] = n
delete_index n (x ∷ rest) =
    let later = delete_index (int_add n (pos 1)) rest in if leb_ℤ x n then later else n

pub delete_frames_getframe : DeleteFramesData → GetFrame ℤ
delete_frames_getframe d n ar_initial = do
  let frame = delete_index n d.delete
  set_frame_data frame
  request_frame_filter frame d.node
  no_frame
delete_frames_getframe d n ar_all_frames_ready = do
  frame ← get_frame_data
  return_frame (← get_frame_filter frame d.node)
delete_frames_getframe d n _ = no_frame

-- `deleteFramesFree`
pub delete_frames_free : DeleteFramesData → Create DeleteFramesData (Unit {0})
delete_frames_free d = do free_node d.node; free; free

abbrev pub bad_delete : ℤ → ℤ → Bool
bad_delete num_frames x = ltb_ℤ x (pos 0) || (not (eqb_ℤ num_frames (pos 0)) && leb_ℤ num_frames x)

abbrev pub fail_delete : NodeRef → Create DeleteFramesData (Unit {0})
fail_delete node = do free_node node; free; ret_error "DeleteFrames: out of bounds frame number"

-- The loop that looks for two neighbours that are equal.
unfoldable pub has_repeat : List ℤ → Bool
has_repeat [] = false
has_repeat (x ∷ []) = false
has_repeat (x ∷ y ∷ rest) = eqb_ℤ x y || has_repeat (y ∷ rest)

-- A source of unknown length, 0, stays one.
unfoldable pub frames_left : ℤ → ℤ → ℤ
frames_left num_frames num_delete =
    if eqb_ℤ num_frames (pos 0) then num_frames else int_sub num_frames num_delete

pub delete_frames_create : Qsort compare_ints → VsMap → Create DeleteFramesData (Unit {0})
unfolding delete_frames_init
delete_frames_create qsort in_map = do
  node ← get_node in_map "clip" 0
  let num_frames = node.vi.num_frames
  let num_delete = prop_num_elements in_map "frames"
  malloc
  given ←
      read_ints in_map "frames" (bad_delete num_frames) (fail_delete node) 0 (pos_part num_delete)
  let delete = qsort.sort given
  when (has_repeat delete)
      do free_node node; free; ret_error "DeleteFrames: can't delete a frame more than once"
  let left = frames_left num_frames num_delete
  when (not (eqb_ℤ num_frames (pos 0)) && eqb_ℤ left (pos 0))
      do free_node node; free; ret_error "DeleteFrames: can't delete all frames"
  malloc
  create_filter "DeleteFrames" delete_frames_init nf_no_cache (record {
    node = node;
    vi = record (node.vi) { num_frames = left };
    delete = delete;
    num_delete = num_delete;
  })
