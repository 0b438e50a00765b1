-- ===== src/Simple/AddBorders/Tests.antt =====
-- Borders around the tile, taken off again, and colours that are refused.
use cat_syn.Prelude.{ℕ, zero, suc, ◌<◌, ◌≡◌, refl, none, some, [], ◌∷◌, arith, get_elem?}
use cat_syn.Prelude.Int.{pos, int_mod, int_add}
use cat_syn.Plugin.Types.{ints, floats, nodes}
use cat_syn.Plugin.VsMap.{VsMap, prop_get_int, prop_get_node, prop_num_elements}
use cat_syn.Plugin.Helper.{int64_to_int_s, is_compat_format}
use cat_syn.Plugin.Picture.{bind}
use cat_syn.Plugin.Fetch.{run_frame, frame, filtered}
use cat_syn.Plugin.Create.{invoke, failed}
use cat_syn.Reorder.Sample.{yuv420p8}
use cat_syn.Simple.Sample.{tile, tile_clip, tiles, tile-IsFrame, strip}
use cat_syn.Simple.Shared.{say}
use cat_syn.Simple.Crop.{CropData, crop_verify, crop_verify_format, crop_getframe}
use cat_syn.Simple.AddBorders.{
  AddBordersData, add_borders_verify, fill_value, add_borders_getframe, add_borders_create,
  read_colors,
}
use cat_syn.Simple.AddBorders.Inverse.{crop-add_borders}
use cat_syn.Simple.AddBorders.Colors.{IsAccepted, add_borders_create_leaks}

abbrev borders : AddBordersData
borders = record {
  node = tile_clip;
  vi = tile_clip.vi;
  left = pos 2;
  right = pos 4;
  top = pos 2;
  bottom = pos 0;
  color = 16 ∷ 128 ∷ 384 ∷ [];
}

abbrev inside : CropData
inside = record {
  node = record tile_clip { substrate = 9 };
  vi = tile_clip.vi;
  x = pos 2;
  y = pos 2;
  width = pos 4;
  height = pos 4;
}

abbrev shades : ℕ → ℕ
shades zero = 16
shades (suc p) = 128

shades_lem : (p : ℕ) → p < 3 → bind (get_elem? borders.color p) (fill_value 1) ≡ some (shades p)
unfolding fill_value
shades_lem zero lt = refl
shades_lem (suc zero) lt = refl
shades_lem (suc (suc zero)) lt = refl
shades_lem (suc (suc (suc p))) lt = absurd (omega arith)

crop-add_borders_example :
    (props : VsMap) × (run_frame
        (crop_getframe inside)
        (filtered (add_borders_getframe borders) tiles strip)
        (pos 1)
      ≡ frame (record tile { props = props }) 0 0)
unfolding add_borders_verify crop_verify crop_verify_format say int_mod int_add
crop-add_borders_example =
    crop-add_borders borders inside tiles strip yuv420p8 shades 1 2 4 2 0 tile refl (omega arith)
      tile-IsFrame refl refl refl refl refl shades_lem refl (omega arith) (omega arith) refl refl
      refl refl refl refl

abbrev three_colors : VsMap
three_colors =
    ("clip", nodes (tile_clip ∷ [])) ∷ ("left", ints (pos 2 ∷ [])) ∷ ("color", floats 3) ∷ []

three_colors-IsAccepted : IsAccepted three_colors tile_clip yuv420p8
unfolding prop_get_int prop_get_node int64_to_int_s is_compat_format add_borders_verify say int_mod
three_colors-IsAccepted = record {
  clip = refl;
  some_border = refl;
  left = refl;
  right = refl;
  top = refl;
  bottom = refl;
  format = refl;
  no_compat = refl;
  fits = refl;
}

add_borders_create_leaks_example :
    invoke (add_borders_create (λ i. none) three_colors)
    ≡ failed "AddBorders: color value out of range" 1 0
unfolding prop_num_elements read_colors
add_borders_create_leaks_example =
    (add_borders_create_leaks (λ i. none) three_colors tile_clip yuv420p8 3 three_colors-IsAccepted
        refl (omega arith)).0
      refl refl
