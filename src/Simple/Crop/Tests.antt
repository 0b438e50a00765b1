-- ===== src/Simple/Crop/Tests.antt =====
-- Runs of Crop on the tile, and on a clip of one row.
use cat_syn.Prelude.{◌≡◌, refl, [], ◌∷◌, arith}
use cat_syn.Prelude.Int.{pos, int_add, int_mod}
use cat_syn.Plugin.Types.{Frame, ints, nodes}
use cat_syn.Plugin.VsMap.{VsMap, prop_get_int, prop_get_node}
use cat_syn.Plugin.Fetch.{run_frame, frame, crashed}
use cat_syn.Plugin.Create.{invoke, Filter, created}
use cat_syn.Simple.Sample.{
  tile, tile_clip, tiles, tile-IsFrame, strip, gray_clip, gray8, strip-IsFrame,
}
use cat_syn.Simple.Shared.{say}
use cat_syn.Simple.Crop.{
  CropData, crop_getframe, crop_verify, crop_verify_format, crop_top, crop_abs_create,
}
use cat_syn.Simple.Crop.Laws.{crop_delivers, IsWindow}
use cat_syn.Simple.Crop.Wraps.{crop_abs_create_wraps}

-- The two by two samples at the right, two rows down.
abbrev corner : CropData
corner = record {
  node = tile_clip;
  vi = tile_clip.vi;
  x = pos 2;
  y = pos 2;
  width = pos 2;
  height = pos 2;
}

crop_delivers_example :
    (dst : Frame) × (run_frame (crop_getframe corner) tiles (pos 3) ≡ frame dst 0 0)
    × IsWindow tile 2 2 (pos 2) (pos 2) dst
unfolding crop_verify crop_verify_format crop_top int_add int_mod say
crop_delivers_example =
    crop_delivers corner tiles (pos 3) tile refl tile-IsFrame refl (omega arith) (omega arith)

abbrev windowed : VsMap
windowed =
    ("clip", nodes (tile_clip ∷ []))
    ∷ ("left", ints (pos 2 ∷ []))
    ∷ ("width", ints (pos 2 ∷ []))
    ∷ ("height", ints (pos 4 ∷ []))
    ∷ []

abbrev far_right : VsMap
far_right =
    ("clip", nodes (gray_clip ∷ []))
    ∷ ("left", ints (pos 1 ∷ []))
    ∷ ("top", ints (pos 0 ∷ []))
    ∷ ("width", ints (pos 2147483647 ∷ []))
    ∷ ("height", ints (pos 1 ∷ []))
    ∷ []

crop_abs_create_wraps_example :
    (f : Filter CropData) × (invoke (crop_abs_create far_right) ≡ created f 1 1)
    × (run_frame (crop_getframe f.instance_data) (λ k. strip) (pos 0) ≡ crashed)
unfolding prop_get_node prop_get_int
crop_abs_create_wraps_example =
    let (f, made, reads) =
      crop_abs_create_wraps far_right gray_clip gray8 1 0 2147483647 1 2 1 refl refl refl refl refl
        refl refl refl refl refl refl (omega arith) (omega arith) (omega arith) (omega arith)
        (omega arith) (omega arith) (omega arith) in
    (f, made, reads (λ k. strip) (pos 0) strip-IsFrame refl (omega arith) refl refl)
