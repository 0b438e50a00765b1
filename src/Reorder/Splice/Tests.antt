-- ===== src/Reorder/Splice/Tests.antt =====
-- Runs of Splice on clips of 100 and 50 frames, and on two that are too long together.
use cat_syn.Prelude.{◌≡◌, refl, [], ◌∷◌, arith}
use cat_syn.Prelude.Int.{pos, int_add}
use cat_syn.Plugin.Types.{nodes, eq_format}
use cat_syn.Plugin.VsMap.{VsMap, find, prop_get_int, prop_get_node, prop_num_elements}
use cat_syn.Plugin.Clips.{get_clips}
use cat_syn.Plugin.Fetch.{run_frame, frame}
use cat_syn.Plugin.Create.{Settles, invoke, crashed, Filter, created, nf_no_cache}
use cat_syn.Reorder.Sample.{clip_of, numbered}
use cat_syn.Reorder.Shared.{find_common_vi, common_loop, common_step}
use cat_syn.Reorder.Splice.{
  SpliceData, splice_create, splice_clips, splice_free, splice_getframe, sum_frames,
}
use cat_syn.Reorder.Splice.Laws.{splice_selects, splice_create-Settles, splice_create_overflow}

abbrev args : VsMap
args = ("clips", nodes (clip_of 7 100 ∷ clip_of 8 50 ∷ [])) ∷ []

abbrev long_args : VsMap
long_args = ("clips", nodes (clip_of 7 2147483647 ∷ clip_of 8 50 ∷ [])) ∷ []

abbrev made : Filter SpliceData
made = record {
  name = "Splice";
  vi = record ((clip_of 7 100).vi) { num_frames = pos 150 };
  flags = nf_no_cache;
  instance_data = record {
    node = clip_of 7 100 ∷ clip_of 8 50 ∷ [];
    vi = record ((clip_of 7 100).vi) { num_frames = pos 150 };
    numframes = pos 100 ∷ pos 50 ∷ [];
    numclips = pos 2;
  };
}

splice_create-args : invoke (splice_create args) ≡ created made 2 3
unfolding splice_create splice_clips prop_num_elements prop_get_int prop_get_node get_clips
    find_common_vi common_loop common_step sum_frames int_add
splice_create-args = refl

splice_selects_example :
    run_frame (splice_getframe made.instance_data) numbered (pos 120)
    ≡ frame (numbered (record { substrate = 8; frame_idx = 20 })) 0 0
splice_selects_example =
    splice_selects made.instance_data numbered (100 ∷ 50 ∷ []) 1 20 {l = 50} {v = clip_of 8 50} refl
      (omega arith) refl refl (omega arith)

splice_create-Settles_example : Settles splice_free (invoke (splice_create args))
unfolding find
splice_create-Settles_example =
    splice_create-Settles args (clip_of 7 100) (clip_of 8 50 ∷ []) refl (ground arith)
      ((refl, omega arith), ((refl, omega arith), tt)) (omega arith)

splice_create_overflow_example : invoke (splice_create long_args) ≡ crashed
unfolding find eq_format
splice_create_overflow_example =
    splice_create_overflow long_args (clip_of 7 2147483647) (clip_of 8 50 ∷ []) refl (ground arith)
      ((refl, omega arith), ((refl, omega arith), tt)) (omega arith) refl
