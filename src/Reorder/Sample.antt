-- ===== src/Reorder/Sample.antt =====
-- Clips that the tests of the filters run on.
use cat_syn.Prelude.{ℕ, some, [], ◌∷◌}
use cat_syn.Prelude.Int.{pos}
use cat_syn.Plugin.Types.{Format, NodeRef, Frame, ints, cm_yuv}
use cat_syn.Plugin.Fetch.{FrameSource}

abbrev pub yuv420p8 : Format
yuv420p8 = record {
  id = 3000010;
  color_family = cm_yuv;
  sample_type = 0;
  bits_per_sample = 8;
  bytes_per_sample = 1;
  sub_sampling_w = 1;
  sub_sampling_h = 1;
  num_planes = 3;
}

-- A clip of so many frames, by its substrate's number.
abbrev pub clip_of : ℕ → ℕ → NodeRef
clip_of substrate len = record {
  substrate = substrate;
  vi = record {
    format = some yuv420p8;
    fps_num = pos 24;
    fps_den = pos 1;
    width = pos 640;
    height = pos 480;
    num_frames = pos len;
    flags = pos 0;
  };
}

-- A core whose frames carry their number, and a duration of 1/24.
abbrev pub numbered : FrameSource → Frame
numbered k = record {
  format = yuv420p8;
  width = 1;
  height = 1;
  planes = ((k.frame_idx ∷ []) ∷ []) ∷ [];
  props = ("_DurationNum", ints (pos 1 ∷ [])) ∷ ("_DurationDen", ints (pos 24 ∷ [])) ∷ [];
}
