-- ===== src/Reorder/Shared.antt =====
-- The shared part of VapStd/reorderfilters.c: the common video info of several clips, and the order
-- of frame numbers.
pub mod Laws
mod Tests
use cat_syn.Prelude.{
  Bool, true, false, Option, none, some, List, [], ◌∷◌, not, ◌||◌, ◌&&◌, if◌then◌else◌,
}
use cat_syn.Prelude.Int.{ℤ, pos, negsuc, eqb_ℤ, ltb_ℤ}
use cat_syn.Plugin.Types.{VideoInfo, NodeRef, eq_format}

-- `enum MismatchCauses`; the value 0 is `none` of an option.
pub data MismatchCause : Type 0 where
  different_dimensions different_formats different_frame_rates different_lengths : MismatchCause

pub record Common : Type 0 where
  pub vi : VideoInfo
  pub mismatch : Option MismatchCause

-- The four tests of one round, each on what the ones before have left of `outvi`.
unfoldable pub match_dimensions : VideoInfo → Common → Common
match_dimensions vi c =
    if not (eqb_ℤ c.vi.width vi.width) || not (eqb_ℤ c.vi.height vi.height)
    then record {
      vi = record (c.vi) { width = pos 0; height = pos 0 };
      mismatch = some different_dimensions;
    }
    else c

unfoldable pub match_format : VideoInfo → Common → Common
unfolding eq_format
match_format vi c =
    if not (eq_format c.vi.format vi.format)
    then record { vi = record (c.vi) { format = none }; mismatch = some different_formats }
    else c

unfoldable pub match_rate : VideoInfo → Common → Common
match_rate vi c =
    if not (eqb_ℤ c.vi.fps_num vi.fps_num) || not (eqb_ℤ c.vi.fps_den vi.fps_den)
    then record {
      vi = record (c.vi) { fps_den = pos 0; fps_num = pos 0 };
      mismatch = some different_frame_rates;
    }
    else c

unfoldable pub match_length : Bool → VideoInfo → Common → Common
match_length ignorelength vi c =
    if ltb_ℤ c.vi.num_frames vi.num_frames
    then record {
      vi = record (c.vi) { num_frames = vi.num_frames };
      mismatch = if ignorelength then c.mismatch else some different_lengths;
    }
    else c

unfoldable pub common_step : Bool → VideoInfo → Common → Common
unfolding match_dimensions match_format match_rate match_length
common_step ignorelength vi c =
    match_length ignorelength vi (match_rate vi (match_format vi (match_dimensions vi c)))

unfoldable pub common_loop : Bool → Common → List NodeRef → Common
common_loop ignorelength c [] = c
common_loop ignorelength c (v ∷ rest) =
    common_loop ignorelength (common_step ignorelength v.vi c) rest

-- `findCommonVi`. Its first statement reads the first node, so there has to be one.
unfoldable pub find_common_vi : List NodeRef → Bool → Option Common
unfolding common_loop
find_common_vi [] ignorelength = none
find_common_vi (v ∷ rest) ignorelength =
    some (common_loop ignorelength (record { vi = v.vi; mismatch = none }) rest)

-- `compareInts`
unfoldable pub compare_ints : ℤ → ℤ → ℤ
compare_ints a b = if ltb_ℤ a b then negsuc 0 else if ltb_ℤ b a then pos 1 else pos 0
