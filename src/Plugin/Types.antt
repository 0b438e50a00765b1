-- ===== src/Plugin/Types.antt =====
-- The data types of VapStd/VapourSynth.h, and the node and frame references of
-- Metalloporphyrin/src/porphyrin.h. An `int64_t` or `int` field is an integer.
use cat_syn.Prelude.{ℕ, Bool, true, false, Option, none, some, List, String, ◌==◌}
use cat_syn.Prelude.Int.{ℤ}

-- `VSFormat`. A registered format has one object, so the pointers that the source compares stand
-- for the ids.
pub record Format : Type 0 where
  pub id : ℕ
  pub color_family : ℕ
  pub sample_type : ℕ
  pub bits_per_sample : ℕ
  pub bytes_per_sample : ℕ
  pub sub_sampling_w : ℕ
  pub sub_sampling_h : ℕ
  pub num_planes : ℕ

-- `VSColorFamily`
abbrev pub cm_gray : ℕ
cm_gray = 1000000

abbrev pub cm_rgb : ℕ
cm_rgb = 2000000

abbrev pub cm_yuv : ℕ
cm_yuv = 3000000

abbrev pub cm_y_co_cg : ℕ
cm_y_co_cg = 4000000

abbrev pub cm_compat : ℕ
cm_compat = 9000000

-- `pfCompatBGR32`
abbrev pub pf_compat_bgr32 : ℕ
pf_compat_bgr32 = 9000010

-- `VSVideoInfo`; a clip whose format varies has none.
pub record VideoInfo : Type 0 where
  pub format : Option Format
  pub fps_num : ℤ
  pub fps_den : ℤ
  pub width : ℤ
  pub height : ℤ
  pub num_frames : ℤ
  pub flags : ℤ

-- Pointer equality of two formats, either of which may be null.
unfoldable pub eq_format : Option Format → Option Format → Bool
eq_format none none = true
eq_format none (some g) = false
eq_format (some f) none = false
eq_format (some f) (some g) = f.id == g.id

-- `VSNodeRef`: the substrate that it refers to, by number, and its video info.
pub record NodeRef : Type 0 where
  pub substrate : ℕ
  pub vi : VideoInfo

-- `VSActivationReason`
pub data ActivationReason : Type 0 where
  ar_initial ar_frame_ready ar_all_frames_ready ar_error : ActivationReason

-- What a map holds under a key: an integer array, a node or a table of nodes, or a value of another
-- kind, of which only the number of elements matters: `floats` are a float array, and `others` is a
-- table of byte strings, frames or functions, or one such value. A key that was deleted stays, without
-- an object: `null`.
pub data Value : Type 0 where
  ints : List ℤ → Value
  nodes : List NodeRef → Value
  floats : ℕ → Value
  others : ℕ → Value
  null : Value

-- A frame: its size, its samples, plane by plane and row by row, and its properties.
pub record Frame : Type 0 where
  pub format : Format
  pub width : ℕ
  pub height : ℕ
  pub planes : List (List (List ℕ))
  pub props : List (String × Value)
