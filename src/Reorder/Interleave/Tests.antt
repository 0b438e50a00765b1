-- ===== src/Reorder/Interleave/Tests.antt =====
-- Runs of Interleave on clips of 100 and 50 frames.
use Prim.Native.Nat.{◌∣◌}
use cat_syn.Prelude.{ℕ, ◌*◌, ◌≡◌, refl, Bool, true, false, List, [], ◌∷◌, arith}
use cat_syn.Prelude.Int.{pos}
use cat_syn.Plugin.Types.{NodeRef, nodes, ints}
use cat_syn.Plugin.VsMap.{VsMap, find, prop_get_int, prop_set_int}
use cat_syn.Plugin.Fetch.{run_frame, frame}
use cat_syn.Plugin.Create.{Settles, invoke}
use cat_syn.Reorder.Sample.{clip_of, numbered}
use cat_syn.Reorder.Interleave.{
  InterleaveData, interleave_create, interleave_free, interleave_getframe, interleave_frames,
}
use cat_syn.Reorder.Interleave.Frames.{interleave_frames_lem}
use cat_syn.Reorder.Interleave.Laws.{interleave_create-Settles, interleave_durations}

abbrev both : List NodeRef
both = clip_of 7 100 ∷ clip_of 8 50 ∷ []

abbrev args : VsMap
args = ("clips", nodes both) ∷ []

abbrev data_of_both : Bool → InterleaveData
data_of_both modify_duration = record {
  node = both;
  vi = record ((clip_of 7 100).vi) { num_frames = pos 199 };
  numclips = pos 2;
  modify_duration = modify_duration;
}

interleave_create-Settles_example : Settles interleave_free (invoke (interleave_create args))
unfolding find
interleave_create-Settles_example =
    interleave_create-Settles args (clip_of 7 100) (clip_of 8 50 ∷ []) refl (ground arith)
      (omega arith)

interleave_durations_example :
    (p : ℕ) × (q : ℕ) × (p * 48 ≡ q * 1)
    × ((c : ℕ) → c ∣ p → c ∣ q → c ≡ 1)
    × (run_frame (interleave_getframe (data_of_both true)) numbered (pos 41)
        ≡ frame
            (record (numbered (record { substrate = 8; frame_idx = 20 })) {
              props =
                  prop_set_int
                    (prop_set_int
                      (("_DurationNum", ints (pos 1 ∷ []))
                        ∷ ("_DurationDen", ints (pos 24 ∷ []))
                        ∷ [])
                      "_DurationNum"
                      (pos p))
                    "_DurationDen"
                    (pos q);
            })
            0
            0)
unfolding prop_get_int
interleave_durations_example =
    interleave_durations (data_of_both true) numbered 2 41 1 24 {v = clip_of 8 50} refl
      (omega arith) (omega arith) refl refl refl refl (omega arith) (omega arith) (omega arith)

interleave_frames_lem_example :
    ((interleave_frames false (pos 100) both (pos 2)).1 ≡ false)
    × ((interleave_frames false (pos 100) both (pos 2)).1 ≡ false
        → (interleave_frames false (pos 100) both (pos 2)).0 ≡ pos 199)
interleave_frames_lem_example =
    interleave_frames_lem (clip_of 7 100) (clip_of 8 50 ∷ []) 100 (omega arith)
      ((omega arith, refl, omega arith), ((omega arith, refl, omega arith), tt)) (omega arith)
