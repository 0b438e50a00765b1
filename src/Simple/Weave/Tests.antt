-- ===== src/Simple/Weave/Tests.antt =====
-- The fields of the tile, and the tile made of them.
use cat_syn.Prelude.{ℕ, zero, suc, ◌%◌, ◌^◌, ◌≡◌, refl, none, true, false, arith}
use cat_syn.Prelude.Int.{pos}
use cat_syn.Plugin.VsMap.{VsMap, prop_get_int}
use cat_syn.Plugin.Helper.{int64_to_int_s}
use cat_syn.Plugin.Picture.{plane_ssh}
use cat_syn.Plugin.Fetch.{run_frame, frame, filtered}
use cat_syn.Simple.Sample.{tile, tile_clip, tiles, tile-IsFrame, strip}
use cat_syn.Simple.Fields.{SeparateFieldsData, separate_fields_getframe, effective_tff}
use cat_syn.Simple.Fields.Laws.{IsTall}
use cat_syn.Simple.Weave.{DoubleWeaveData, double_weave_getframe}
use cat_syn.Simple.Weave.Inverse.{weave-separate}

abbrev fields : SeparateFieldsData
fields = record {
  node = tile_clip;
  vi = record (tile_clip.vi) { height = pos 2; num_frames = pos 20 };
  tff = none;
  modify_duration = false;
}

abbrev weaves : DoubleWeaveData
weaves = record { node = record tile_clip { substrate = 8 }; vi = tile_clip.vi; tff = none }

tile-IsTall : IsTall 4 2 tile
tile-IsTall = record { frame = tile-IsFrame; width = refl; height = refl; whole = λ p. whole p }
  where
    whole : (p : ℕ) → 2 % 2 ^ plane_ssh tile.format p ≡ 0
    whole zero = refl
    whole (suc p) = ground arith

weave-separate_example :
    (props : VsMap) × (run_frame
        (double_weave_getframe weaves)
        (filtered (separate_fields_getframe fields) tiles strip)
        (pos 6)
      ≡ frame (record tile { props = props }) 0 0)
    × (prop_get_int props "_FieldBased" 0 ≡ (pos 2, 0))
unfolding effective_tff prop_get_int int64_to_int_s
weave-separate_example =
    weave-separate fields weaves tiles strip 3 4 2 true (omega arith) refl refl refl refl
      tile-IsTall refl refl refl refl
