-- ===== src/Reorder/DuplicateFrames/Tests.antt =====
-- Runs of DuplicateFrames on a clip of 100 frames, with the frames 20, 5 and 20 again.
use cat_syn.Prelude.{ℕ, ◌+◌, ◌≤◌, ◌<◌, ◌≡◌, refl, List, [], ◌∷◌, arith, count_if}
use cat_syn.Prelude.Int.{ℤ, pos, ltb_ℤ, leb_ℤ, int_add, int_sub}
use cat_syn.Plugin.Types.{Frame, ints, nodes}
use cat_syn.Plugin.VsMap.{VsMap, prop_get_int, prop_get_node, prop_num_elements}
use cat_syn.Plugin.Helper.{int64_to_int_s}
use cat_syn.Plugin.Clips.{read_ints}
use cat_syn.Plugin.Fetch.{FrameSource, run_frame, frame}
use cat_syn.Plugin.Create.{invoke, Filter, created, nf_no_cache}
use cat_syn.Reorder.Shared.{compare_ints}
use cat_syn.Reorder.Sample.{clip_of}
use cat_syn.Plugin.InsertionSort.{by_insertion, insertion_sort, insert}
use cat_syn.Reorder.DuplicateFrames.{
  DuplicateFramesData, duplicate_frames_create, duplicate_frames_getframe,
}
use cat_syn.Reorder.DuplicateFrames.Laws.{duplicate_frames_delivers, numbers}

abbrev given : List ℤ
given = pos 20 ∷ pos 5 ∷ pos 20 ∷ []

abbrev args : VsMap
args = ("clip", nodes (clip_of 7 100 ∷ [])) ∷ ("frames", ints given) ∷ []

abbrev made : Filter DuplicateFramesData
made = record {
  name = "DuplicateFrames";
  vi = record ((clip_of 7 100).vi) { num_frames = pos 103 };
  flags = nf_no_cache;
  instance_data = record {
    node = clip_of 7 100;
    vi = record ((clip_of 7 100).vi) { num_frames = pos 103 };
    dups = pos 5 ∷ pos 20 ∷ pos 20 ∷ [];
    num_dups = pos 3;
  };
}

duplicate_frames_create-args :
    invoke (duplicate_frames_create (by_insertion compare_ints) args) ≡ created made 1 2
unfolding duplicate_frames_create prop_num_elements prop_get_int prop_get_node read_ints
    int64_to_int_s insertion_sort insert compare_ints int_add int_sub
duplicate_frames_create-args = refl

duplicate_frames_delivers_example :
    (made.vi.num_frames ≡ pos 103)
    × (i : ℕ) × (i < 100)
    × (i + count_if (λ x. ltb_ℤ x (pos i)) (numbers given) ≤ 21)
    × (21 ≤ i + count_if (λ x. leb_ℤ x (pos i)) (numbers given))
    × ((serve : FrameSource → Frame)
        → run_frame (duplicate_frames_getframe made.instance_data) serve (pos 21)
          ≡ frame (serve (record { substrate = 7; frame_idx = i })) 0 0)
unfolding prop_get_node
duplicate_frames_delivers_example =
    duplicate_frames_delivers (by_insertion compare_ints) args (clip_of 7 100) given refl refl 100
      21 refl (omega arith) (omega arith) (omega arith) duplicate_frames_create-args (omega arith)
