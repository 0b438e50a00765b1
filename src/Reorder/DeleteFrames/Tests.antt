-- ===== src/Reorder/DeleteFrames/Tests.antt =====
-- Runs of DeleteFrames on a clip of 100 frames, with the frames 20, 5 and 21.
use cat_syn.Prelude.{false, ℕ, ◌<◌, ◌≡◌, refl, List, [], ◌∷◌, arith}
use cat_syn.Prelude.Int.{ℤ, pos, int_add, int_sub, ◌<ℤ◌}
use cat_syn.Plugin.Types.{Frame, ints, nodes}
use cat_syn.Plugin.VsMap.{VsMap, prop_get_int, prop_get_node, prop_num_elements}
use cat_syn.Plugin.Helper.{int64_to_int_s}
use cat_syn.Plugin.Clips.{read_ints}
use cat_syn.Plugin.Fetch.{FrameSource, run_frame, frame}
use cat_syn.Plugin.Create.{invoke, Filter, created, nf_no_cache}
use cat_syn.Reorder.Shared.{compare_ints}
use cat_syn.Reorder.Sample.{clip_of}
use cat_syn.Plugin.InsertionSort.{by_insertion, insertion_sort, insert}
use cat_syn.Reorder.DeleteFrames.{
  DeleteFramesData, delete_frames_create, delete_frames_getframe, has_repeat, frames_left,
}
use cat_syn.Reorder.DeleteFrames.Kept.{deleted, kept}
use cat_syn.Reorder.DeleteFrames.Laws.{delete_frames_delivers, numbers}

abbrev given : List ℤ
given = pos 20 ∷ pos 5 ∷ pos 21 ∷ []

abbrev args : VsMap
args = ("clip", nodes (clip_of 7 100 ∷ [])) ∷ ("frames", ints given) ∷ []

abbrev made : Filter DeleteFramesData
made = record {
  name = "DeleteFrames";
  vi = record ((clip_of 7 100).vi) { num_frames = pos 97 };
  flags = nf_no_cache;
  instance_data = record {
    node = clip_of 7 100;
    vi = record ((clip_of 7 100).vi) { num_frames = pos 97 };
    delete = pos 5 ∷ pos 20 ∷ pos 21 ∷ [];
    num_delete = pos 3;
  };
}

delete_frames_create-args :
    invoke (delete_frames_create (by_insertion compare_ints) args) ≡ created made 1 2
unfolding delete_frames_create prop_num_elements prop_get_int prop_get_node read_ints int64_to_int_s
    insertion_sort insert compare_ints int_add int_sub has_repeat frames_left
delete_frames_create-args = refl

delete_frames_delivers_example :
    (0 < kept 100 (numbers given))
    × (made.vi.num_frames ≡ pos (kept 100 (numbers given)))
    × ((n : ℕ)
        → pos n <ℤ made.vi.num_frames
        → (i : ℕ) × (i < 100)
          × (kept i (numbers given) ≡ n)
          × (deleted i (numbers given) ≡ false)
          × ((serve : FrameSource → Frame)
              → run_frame (delete_frames_getframe made.instance_data) serve (pos n)
                ≡ frame (serve (record { substrate = 7; frame_idx = i })) 0 0))
unfolding prop_get_node
delete_frames_delivers_example =
    delete_frames_delivers (by_insertion compare_ints) args (clip_of 7 100) given refl refl 100 refl
      (omega arith) (omega arith) delete_frames_create-args
