-- ===== src/Reorder/Trim/Tests.antt =====
-- Runs of Trim on a clip of 100 frames.
use cat_syn.Prelude.{◌<◌, ◌≡◌, refl, [], ◌∷◌, arith}
use cat_syn.Prelude.Int.{pos, int_add, int_sub}
use cat_syn.Plugin.Types.{Frame, ints, nodes}
use cat_syn.Plugin.VsMap.{VsMap, prop_get_int, prop_get_node}
use cat_syn.Plugin.Helper.{int64_to_int_s}
use cat_syn.Plugin.Fetch.{FrameSource, run_frame, frame}
use cat_syn.Plugin.Create.{invoke, Filter, created, nf_no_cache}
use cat_syn.Reorder.Sample.{clip_of}
use cat_syn.Reorder.Trim.{TrimData, trim_create, trim_beyond, trim_length, trim_getframe}
use cat_syn.Reorder.Trim.Laws.{trim_selects, trim_create_wraps}

abbrev middle : VsMap
middle =
    ("clip", nodes (clip_of 7 100 ∷ []))
    ∷ ("first", ints (pos 10 ∷ []))
    ∷ ("last", ints (pos 29 ∷ []))
    ∷ []

abbrev trimmed : Filter TrimData
trimmed = record {
  name = "Trim";
  vi = record ((clip_of 7 100).vi) { num_frames = pos 20 };
  flags = nf_no_cache;
  instance_data = record {
    node = clip_of 7 100;
    vi = (clip_of 7 100).vi;
    first = pos 10;
    last = pos 29;
    length = pos 0;
    trimlen = pos 20;
  };
}

trim_create-middle : invoke (trim_create middle) ≡ created trimmed 1 1
unfolding trim_create trim_beyond trim_length prop_get_int prop_get_node int64_to_int_s int_add
    int_sub
trim_create-middle = refl

trim_selects_example :
    (15 < 100)
    × ((serve : FrameSource → Frame)
        → run_frame (trim_getframe trimmed.instance_data) serve (pos 5)
          ≡ frame (serve (record { substrate = 7; frame_idx = 15 })) 0 0)
unfolding prop_get_node prop_get_int int64_to_int_s
trim_selects_example =
    trim_selects middle (clip_of 7 100) 100 5 refl refl (omega arith) (λ h. cc h) trim_create-middle
      (omega arith)

abbrev too_long : VsMap
too_long =
    ("clip", nodes (clip_of 7 100 ∷ []))
    ∷ ("first", ints (pos 1 ∷ []))
    ∷ ("length", ints (pos 2147483647 ∷ []))
    ∷ []

abbrev beyond : Filter TrimData
beyond = record {
  name = "Trim";
  vi = record ((clip_of 7 100).vi) { num_frames = pos 2147483647 };
  flags = nf_no_cache;
  instance_data = record {
    node = clip_of 7 100;
    vi = (clip_of 7 100).vi;
    first = pos 1;
    last = pos 0;
    length = pos 2147483647;
    trimlen = pos 2147483647;
  };
}

trim_create_wraps_example : invoke (trim_create too_long) ≡ created beyond 1 1
unfolding prop_get_node prop_get_int int64_to_int_s
trim_create_wraps_example =
    trim_create_wraps too_long (clip_of 7 100) 100 1 0 2147483647 refl refl (omega arith) refl refl
      refl (omega arith) (omega arith) (omega arith)
