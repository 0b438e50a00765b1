-- ===== src/Simple/Transpose/Laws.antt =====
-- What Transpose delivers, once and over itself.
use cat_syn.Prelude.{ℕ, ◌/◌, ◌^◌, ◌<◌, ◌≡◌, true, some}
use cat_syn.Prelude.Int.{pos}
use cat_syn.Plugin.Types.{Format, Frame}
use cat_syn.Plugin.Picture.{plane_ssw, plane_ssh}
use cat_syn.Plugin.Picture.Frames.{IsFrame, sample_at}
use cat_syn.Plugin.Fetch.{frame}
use cat_syn.Simple.Flip.{supported}
use cat_syn.Simple.Transpose.{TransposeData}

-- The output of the filter is what transposeCreate makes it for a clip of this format and size: width
-- and height change places, and so do the subsamplings.
pub record Turns (d : TransposeData) (f g : Format) (w h : ℕ) : Type 0 where
  pub format : d.vi.format ≡ some f
  pub width : d.vi.width ≡ pos h
  pub height : d.vi.height ≡ pos w
  pub columns : f.sub_sampling_w ≡ g.sub_sampling_h
  pub rows : f.sub_sampling_h ≡ g.sub_sampling_w
  pub planes : f.num_planes ≡ g.num_planes
  pub bytes : supported f.bytes_per_sample ≡ true

-- `dst` is `src` with rows and columns exchanged.
pub record IsTranspose (f : Format) (src dst : Frame) : Type 0 where
  pub frame : IsFrame dst
  pub format : dst.format ≡ f
  pub width : dst.width ≡ src.height
  pub height : dst.height ≡ src.width
  pub props : dst.props ≡ src.props
  pub samples :
      (p i j : ℕ)
      → p < f.num_planes
      → i < src.width / 2 ^ plane_ssh f p
      → j < src.height / 2 ^ plane_ssw f p
      → sample_at dst p i j ≡ sample_at src p j i
