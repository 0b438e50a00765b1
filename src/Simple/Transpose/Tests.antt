-- ===== src/Simple/Transpose/Tests.antt =====
-- Runs of Transpose on a tile and on a clip with subsampled columns.
use cat_syn.Prelude.{◌≡◌, refl, none, [], ◌∷◌}
use cat_syn.Prelude.Int.{pos, wrap32}
use cat_syn.Plugin.Types.{Frame}
use cat_syn.Plugin.Picture.{each_plane, get_read_ptr, get_frame_width, get_frame_height}
use cat_syn.Plugin.Picture.Planes.{sample}
use cat_syn.Plugin.Fetch.{run_frame, frame, find_input}
use cat_syn.Simple.Sample.{tile, tile_clip, tiles}
use cat_syn.Simple.Transpose.{
  PlaneFunction, scalar_function, TransposeData, transpose_getframe, transpose_frame_plane,
  plane_function, transpose_plane, line_rows, block_rows, one_row, loop, copy_cell, put,
  written_rows, written_row,
}

-- Not called at level 0.
abbrev no_sse2 : PlaneFunction
no_sse2 bytes rows dw dh width height = none

abbrev tile_data : TransposeData
tile_data = record { node = tile_clip; vi = tile_clip.vi; cpulevel = 0 }

abbrev tile_transposed : Frame
tile_transposed = record tile {
  planes =
      ((0 ∷ 10 ∷ 20 ∷ 30 ∷ [])
        ∷ (1 ∷ 11 ∷ 21 ∷ 31 ∷ [])
        ∷ (2 ∷ 12 ∷ 22 ∷ 32 ∷ [])
        ∷ (3 ∷ 13 ∷ 23 ∷ 33 ∷ [])
        ∷ [])
      ∷ ((100 ∷ 110 ∷ []) ∷ (101 ∷ 111 ∷ []) ∷ [])
      ∷ ((200 ∷ 210 ∷ []) ∷ (201 ∷ 211 ∷ []) ∷ [])
      ∷ [];
}

transposes_tile :
    run_frame (transpose_getframe no_sse2 tile_data) tiles (pos 3) ≡ frame tile_transposed 0 0
unfolding transpose_getframe transpose_frame_plane plane_function scalar_function transpose_plane
    line_rows block_rows one_row loop copy_cell put written_rows written_row sample each_plane
    get_read_ptr get_frame_width get_frame_height find_input wrap32
transposes_tile = refl
