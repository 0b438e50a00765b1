-- ===== src/Reorder/Loop/Tests.antt =====
-- Runs of Loop on a clip of 100 frames.
use cat_syn.Prelude.{◌≡◌, refl, [], ◌∷◌}
use cat_syn.Prelude.Int.{pos}
use cat_syn.Plugin.Types.{ints, nodes}
use cat_syn.Plugin.VsMap.{VsMap, prop_get_int, prop_get_node}
use cat_syn.Plugin.Helper.{int64_to_int_s}
use cat_syn.Plugin.Create.{invoke, failed}
use cat_syn.Reorder.Sample.{clip_of}
use cat_syn.Reorder.Loop.{LoopData, loop_create}
use cat_syn.Reorder.Loop.Laws.{loop_create_lem}

-- One frame more than an int holds.
abbrev args : VsMap
args = ("clip", nodes (clip_of 7 100 ∷ [])) ∷ ("times", ints (pos 21474837 ∷ [])) ∷ []

abbrev data_of_100 : LoopData
data_of_100 = record {
  node = clip_of 7 100;
  vi = record ((clip_of 7 100).vi) { num_frames = pos 500 };
  num_frames_in = pos 100;
}

loop_create_lem_example : invoke (loop_create args) ≡ failed "Loop: resulting clip is too long" 0 0
unfolding prop_get_node prop_get_int int64_to_int_s
loop_create_lem_example = loop_create_lem args (clip_of 7 100) 100 21474837 refl refl refl
