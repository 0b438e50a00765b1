-- ===== src/Reorder/FreezeFrames/Tests.antt =====
-- Runs of FreezeFrames on a clip of 100 frames, with the range from 20 to 10 and one range before it.
use cat_syn.Prelude.{ℕ, ◌<◌, ◌≡◌, ◌⊎◌, refl, List, [], ◌∷◌, arith, count_if}
use cat_syn.Prelude.Int.{ℤ, pos, int_sub}
use cat_syn.Plugin.Types.{Frame, ints, nodes}
use cat_syn.Plugin.VsMap.{VsMap, prop_get_int, prop_get_node, prop_num_elements}
use cat_syn.Plugin.Helper.{int64_to_int_s}
use cat_syn.Plugin.InsertionSort.{by_insertion, insertion_sort, insert}
use cat_syn.Plugin.Fetch.{FrameSource, run_frame, frame}
use cat_syn.Plugin.Create.{invoke, Filter, created, nf_no_cache}
use cat_syn.Reorder.Sample.{clip_of}
use cat_syn.Reorder.FreezeFrames.{
  FreezeFramesData, covers, freeze_of, read_ranges, bad_range, overlap, freeze_frames_sort,
  freeze_frames_create, freeze_frames_getframe,
}
use cat_syn.Reorder.FreezeFrames.Ranges.{differs}
use cat_syn.Reorder.FreezeFrames.Laws.{freeze_frames_delivers, ranges_of}

abbrev firsts : List ℤ
firsts = pos 20 ∷ pos 2 ∷ []

abbrev lasts : List ℤ
lasts = pos 10 ∷ pos 3 ∷ []

abbrev replacements : List ℤ
replacements = pos 99 ∷ pos 0 ∷ []

abbrev args : VsMap
args =
    ("clip", nodes (clip_of 7 100 ∷ []))
    ∷ ("first", ints firsts)
    ∷ ("last", ints lasts)
    ∷ ("replacement", ints replacements)
    ∷ []

abbrev made : Filter FreezeFramesData
made = record {
  name = "FreezeFrames";
  vi = (clip_of 7 100).vi;
  flags = nf_no_cache;
  instance_data = record {
    node = clip_of 7 100;
    vi = (clip_of 7 100).vi;
    freeze =
        record { first = pos 2; last = pos 3; replacement = pos 0 }
        ∷ record { first = pos 10; last = pos 20; replacement = pos 99 }
        ∷ [];
    num_freeze = pos 2;
  };
}

freeze_frames_create-args :
    invoke (freeze_frames_create (by_insertion freeze_frames_sort) args) ≡ created made 1 2
unfolding freeze_frames_create prop_num_elements prop_get_int prop_get_node read_ranges
    int64_to_int_s insertion_sort insert freeze_frames_sort int_sub freeze_of bad_range overlap
freeze_frames_create-args = refl

freeze_frames_delivers_example :
    (made.vi ≡ (clip_of 7 100).vi)
    × (i : ℕ) × (i < 100)
    × (count_if (differs (pos 12) (pos i)) (ranges_of firsts lasts replacements) ≡ 0)
    × ((0 < count_if (covers (pos 12)) (ranges_of firsts lasts replacements)) ⊎ (i ≡ 12))
    × ((serve : FrameSource → Frame)
        → run_frame (freeze_frames_getframe made.instance_data) serve (pos 12)
          ≡ frame (serve (record { substrate = 7; frame_idx = i })) 0 0)
unfolding prop_get_node
freeze_frames_delivers_example =
    freeze_frames_delivers (by_insertion freeze_frames_sort) args (clip_of 7 100) firsts lasts
      replacements refl refl refl refl 100 12 refl (omega arith) (omega arith) (omega arith)
      (omega arith) freeze_frames_create-args
