-- ===== src/Plugin/Picture.antt =====
-- The frame functions of Metalloporphyrin/src/frame.cpp, with the plane sizes of
-- CatSyn/include/cathelper.h, and vs_bitblt of VapStd/VSHelper.h, on planes of rows of samples.
pub mod Planes
pub mod Frames
use cat_syn.Prelude.{
  ℕ, zero, suc, ◌+◌, ◌-◌, ◌/◌, ◌%◌, ◌^◌, Bool, Option, none, some, List, [], ◌∷◌, String, length,
  get_elem?, take, drop, leb, if◌then◌else◌, ◌==◌,
}
use cat_syn.Prelude.Int.{ℤ, pos, negsuc, wrap32}
use cat_syn.Plugin.Types.{Format, Frame}

abbrev pub Plane : Type 0
Plane = List (List ℕ)

-- `a >> k` on an int.
unfoldable pub shift_right : ℤ → ℕ → ℤ
shift_right (pos a) k = pos (a / 2 ^ k)
shift_right (negsuc a) k = negsuc (a / 2 ^ k)

-- `plane ? fi->subSamplingW : 0`
abbrev pub plane_ssw : Format → ℕ → ℕ
plane_ssw f p = if p == 0 then 0 else f.sub_sampling_w

abbrev pub plane_ssh : Format → ℕ → ℕ
plane_ssh f p = if p == 0 then 0 else f.sub_sampling_h

-- `plane_width` and `plane_height`
abbrev pub plane_width : Frame → ℕ → ℕ
plane_width f p = f.width / 2 ^ plane_ssw f.format p

abbrev pub plane_height : Frame → ℕ → ℕ
plane_height f p = f.height / 2 ^ plane_ssh f.format p

-- `getFrameWidth` and `getFrameHeight`, which cast an unsigned number to an int.
unfoldable pub get_frame_width : Frame → ℕ → ℤ
get_frame_width f p = wrap32 (pos (plane_width f p))

unfoldable pub get_frame_height : Frame → ℕ → ℤ
get_frame_height f p = wrap32 (pos (plane_height f p))

abbrev pub bind : {A B : Type 0} → Option A → (A → Option B) → Option B
bind none f = none
bind (some a) f = f a

-- `memcpy` of `w` samples of a row, from the one at x; they have to be there.
unfoldable pub slice : ℕ → ℕ → List ℕ → Option (List ℕ)
slice x w row = if leb (x + w) (length row) then some (take w (drop x row)) else none

-- `vs_bitblt`: the rows written, read from the first row on, every `step` rows, `w` samples from the
-- one at x. A row that is not there cannot be read.
unfoldable pub bitblt : ℕ → ℕ → ℕ → ℕ → Plane → Option Plane
bitblt step x w zero rows = some []
bitblt step x w (suc h) [] = none
bitblt step x w (suc h) (row ∷ rows) =
    bind (slice x w row)
      λ a. bind (bitblt step x w h (drop step (row ∷ rows))) λ rest. some (a ∷ rest)

-- `for (int plane = p; plane < p + count; plane++)`, with what each round makes of its plane.
unfoldable pub each_plane : (ℕ → Option Plane) → ℕ → ℕ → Option (List Plane)
each_plane f p zero = some []
each_plane f p (suc count) =
    bind (f p) λ plane. bind (each_plane f (suc p) count) λ rest. some (plane ∷ rest)

-- `getReadPtr`, with `check_idx`.
unfoldable pub get_read_ptr : Frame → ℕ → Option Plane
get_read_ptr f p = get_elem? f.planes p

-- `static_cast<unsigned>`
abbrev pub unsigned32 : ℤ → ℕ
unsigned32 (pos n) = n % 4294967296
unsigned32 (negsuc n) = 4294967295 - n % 4294967296

-- `newVideoFrame`, with all that is written to its planes: the properties are those of the source.
abbrev pub new_video_frame : Format → ℤ → ℤ → Frame → List Plane → Frame
new_video_frame format width height prop_src planes = record {
  format = format;
  width = unsigned32 width;
  height = unsigned32 height;
  planes = planes;
  props = prop_src.props;
}
