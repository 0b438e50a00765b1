-- ===== src/Reorder/SelectEvery/Tests.antt =====
-- Runs of SelectEvery on a clip of 10 frames, with the offsets 1 and 3 of a cycle of 4.
use cat_syn.Prelude.{ℕ, ◌<◌, ◌≡◌, refl, false, [], ◌∷◌, arith}
use cat_syn.Prelude.Int.{pos, int_div, int_mod, int_mul, int_add}
use cat_syn.Plugin.Types.{nodes, ints}
use cat_syn.Plugin.VsMap.{VsMap}
use cat_syn.Plugin.Fetch.{run_frame, frame}
use cat_syn.Reorder.Sample.{clip_of, numbered}
use cat_syn.Reorder.SelectEvery.{
  SelectEveryData, select_every_getframe, select_every_frames, count_partial,
}
use cat_syn.Reorder.SelectEvery.Frames.{select_every_frames_lem}
use cat_syn.Reorder.SelectEvery.Laws.{select_every_inside}

abbrev args : VsMap
args =
    ("clip", nodes (clip_of 7 10 ∷ []))
    ∷ ("cycle", ints (pos 4 ∷ []))
    ∷ ("offsets", ints (pos 1 ∷ pos 3 ∷ []))
    ∷ []

abbrev data_of_10 : SelectEveryData
data_of_10 = record {
  node = clip_of 7 10;
  vi = record ((clip_of 7 10).vi) { num_frames = pos 5 };
  cycle = pos 4;
  offsets = pos 1 ∷ pos 3 ∷ [];
  num = pos 2;
  modify_duration = false;
}

select_every_frames_lem_example :
    select_every_frames (pos 10) (pos 4) (pos 2) (pos 1 ∷ pos 3 ∷ []) ≡ pos 5
select_every_frames_lem_example =
    select_every_frames_lem 10 4 (1 ∷ 3 ∷ []) (omega arith) (omega arith)

select_every_inside_example :
    (i : ℕ) × (i < 10)
    × (run_frame (select_every_getframe data_of_10) numbered (pos 4)
        ≡ frame (numbered (record { substrate = 7; frame_idx = i })) 0 0)
unfolding select_every_frames count_partial int_div int_mod int_mul int_add
select_every_inside_example =
    select_every_inside data_of_10 numbered 10 4 4 (1 ∷ 3 ∷ []) refl refl refl refl refl
      (omega arith) (omega arith) (omega arith) ((omega arith, tt), (tt, tt)) refl (omega arith)
      (omega arith)
