-- ===== src/Simple/Flip/Tests.antt =====
-- Runs of the flips on the tile.
use cat_syn.Prelude.{◌≡◌, refl, true, false, [], ◌∷◌, rev_onto, arith}
use cat_syn.Prelude.Int.{pos, wrap32}
use cat_syn.Plugin.Types.{Frame}
use cat_syn.Plugin.Helper.{SingleClipData}
use cat_syn.Plugin.Picture.{slice, each_plane, get_read_ptr, get_frame_width, get_frame_height}
use cat_syn.Plugin.Fetch.{run_frame, frame, filtered, find_input}
use cat_syn.Simple.Sample.{tile, tile_clip, tiles, tile-IsFrame, strip}
use cat_syn.Simple.Flip.{
  FlipHorizontalData, flip_vertical_getframe, flip_horizontal_getframe, flip_horizontal_planes,
  flip_horizontal_plane, flip_rows, supported,
}
use cat_syn.Simple.Flip.Twice.{flips_twice, turn180_lem}

abbrev single : SingleClipData
single = record { node = tile_clip; vi = tile_clip.vi }

abbrev mirrors : FlipHorizontalData
mirrors = record { node = tile_clip; flip = false }

abbrev turns : FlipHorizontalData
turns = record { node = tile_clip; flip = true }

-- Turn180 of the tile.
abbrev tile_turned : Frame
tile_turned = record tile {
  planes =
      ((33 ∷ 32 ∷ 31 ∷ 30 ∷ [])
        ∷ (23 ∷ 22 ∷ 21 ∷ 20 ∷ [])
        ∷ (13 ∷ 12 ∷ 11 ∷ 10 ∷ [])
        ∷ (3 ∷ 2 ∷ 1 ∷ 0 ∷ [])
        ∷ [])
      ∷ ((111 ∷ 110 ∷ []) ∷ (101 ∷ 100 ∷ []) ∷ [])
      ∷ ((211 ∷ 210 ∷ []) ∷ (201 ∷ 200 ∷ []) ∷ [])
      ∷ [];
}

turns_tile : run_frame (flip_horizontal_getframe turns) tiles (pos 3) ≡ frame tile_turned 0 0
unfolding flip_horizontal_getframe flip_horizontal_planes flip_horizontal_plane flip_rows supported
    slice each_plane get_read_ptr get_frame_width get_frame_height find_input rev_onto wrap32
turns_tile = refl

flips_twice_example :
    (run_frame
        (flip_vertical_getframe single)
        (filtered (flip_vertical_getframe single) tiles strip)
        (pos 3)
      ≡ frame tile 0 0)
    × (run_frame
          (flip_horizontal_getframe turns)
          (filtered (flip_horizontal_getframe turns) tiles strip)
          (pos 3)
        ≡ frame tile 0 0)
unfolding supported
flips_twice_example =
    flips_twice tiles strip 3 single single turns turns (omega arith) tile-IsFrame tile-IsFrame refl
      refl

turn180_lem_example :
    run_frame (flip_horizontal_getframe turns) tiles (pos 3)
    ≡ run_frame
        (flip_vertical_getframe single)
        (filtered (flip_horizontal_getframe mirrors) tiles strip)
        (pos 3)
unfolding supported
turn180_lem_example =
    turn180_lem tiles strip 3 turns mirrors single (omega arith) refl refl refl tile-IsFrame refl
