-- ===== src/Simple/Sample.antt =====
-- Frames with samples, that the tests of the simple filters run on.
use cat_syn.Prelude.{ℕ, zero, suc, ◌<◌, ◌≡◌, get_elem?, some, [], ◌∷◌, refl, arith}
use cat_syn.Prelude.Int.{pos}
use cat_syn.Plugin.Types.{Format, NodeRef, Frame, ints, cm_gray}
use cat_syn.Plugin.Fetch.{FrameSource}
use cat_syn.Plugin.Picture.{Plane, plane_width, plane_height}
use cat_syn.Plugin.Picture.Planes.{IsPlane}
use cat_syn.Plugin.Picture.Frames.{IsFrame}
use cat_syn.Reorder.Sample.{yuv420p8}

abbrev pub gray8 : Format
gray8 = record {
  id = 1000010;
  color_family = cm_gray;
  sample_type = 0;
  bits_per_sample = 8;
  bytes_per_sample = 1;
  sub_sampling_w = 0;
  sub_sampling_h = 0;
  num_planes = 1;
}

-- Four columns and four rows, the chroma planes two by two.
abbrev pub tile : Frame
tile = record {
  format = yuv420p8;
  width = 4;
  height = 4;
  planes =
      ((0 ∷ 1 ∷ 2 ∷ 3 ∷ [])
        ∷ (10 ∷ 11 ∷ 12 ∷ 13 ∷ [])
        ∷ (20 ∷ 21 ∷ 22 ∷ 23 ∷ [])
        ∷ (30 ∷ 31 ∷ 32 ∷ 33 ∷ [])
        ∷ [])
      ∷ ((100 ∷ 101 ∷ []) ∷ (110 ∷ 111 ∷ []) ∷ [])
      ∷ ((200 ∷ 201 ∷ []) ∷ (210 ∷ 211 ∷ []) ∷ [])
      ∷ [];
  props = ("_FieldBased", ints (pos 2 ∷ [])) ∷ [];
}

pub tile-IsFrame : IsFrame tile
tile-IsFrame = record {
  count = refl;
  each = λ p lt. each p lt;
  width_pos = omega arith;
  height_pos = omega arith;
  width_fits = omega arith;
  height_fits = omega arith;
}
  where
    each :
        (p : ℕ)
        → p < 3
        → (q : Plane) × (get_elem? tile.planes p ≡ some q)
          × IsPlane (plane_width tile p) (plane_height tile p) q
    each zero lt = (_, refl, record { rows = refl; columns = (refl, (refl, (refl, (refl, tt)))) })
    each (suc zero) lt = (_, refl, record { rows = refl; columns = (refl, (refl, tt)) })
    each (suc (suc zero)) lt = (_, refl, record { rows = refl; columns = (refl, (refl, tt)) })
    each (suc (suc (suc p))) lt = absurd (omega arith)

-- One row of two samples.
abbrev pub strip : Frame
strip = record {
  format = gray8;
  width = 2;
  height = 1;
  planes = ((7 ∷ 8 ∷ []) ∷ []) ∷ [];
  props = [];
}

abbrev pub gray_clip : NodeRef
gray_clip = record {
  substrate = 5;
  vi = record {
    format = some gray8;
    fps_num = pos 24;
    fps_den = pos 1;
    width = pos 2;
    height = pos 1;
    num_frames = pos 10;
    flags = pos 0;
  };
}

abbrev pub tile_clip : NodeRef
tile_clip = record {
  substrate = 6;
  vi = record {
    format = some yuv420p8;
    fps_num = pos 24;
    fps_den = pos 1;
    width = pos 4;
    height = pos 4;
    num_frames = pos 10;
    flags = pos 0;
  };
}

-- A core that serves the tile for each request.
abbrev pub tiles : FrameSource → Frame
tiles k = tile

pub strip-IsFrame : IsFrame strip
strip-IsFrame = record {
  count = refl;
  each = λ p lt. each p lt;
  width_pos = omega arith;
  height_pos = omega arith;
  width_fits = omega arith;
  height_fits = omega arith;
}
  where
    each :
        (p : ℕ)
        → p < 1
        → (q : Plane) × (get_elem? strip.planes p ≡ some q)
          × IsPlane (plane_width strip p) (plane_height strip p) q
    each zero lt = (_, refl, record { rows = refl; columns = (refl, tt) })
    each (suc p) lt = absurd (omega arith)
