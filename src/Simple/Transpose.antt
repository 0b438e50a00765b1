-- ===== src/Simple/Transpose.antt =====
-- Transpose, of VapStd/simplefilters.c, with the scalar plane functions of VapStd/kernel/transpose.h and
-- transpose.c (blocks of one sample); those of kernel/x86/transpose_sse2.c are a parameter.
pub mod Loops
pub mod Kernel
pub mod Written
pub mod Laws
mod Tests
use cat_syn.Prelude.{
  ℕ, zero, suc, ◌+◌, ◌-◌, ◌%◌, Bool, true, false, ◌&&◌, Option, none, some, List, [], ◌∷◌, ltb, leb,
  ◌==◌, if◌then◌else◌,
}
use cat_syn.Prelude.Int.{ℤ}
use cat_syn.Plugin.Types.{VideoInfo, NodeRef, Format, Frame, ar_initial, ar_all_frames_ready}
use cat_syn.Plugin.Picture.{
  Plane, bind, each_plane, get_read_ptr, get_frame_width, get_frame_height, new_video_frame,
  plane_width, plane_height, unsigned32,
}
use cat_syn.Plugin.Picture.Planes.{sample}
use cat_syn.Simple.Flip.{supported}
use cat_syn.Plugin.Action.{need, ◌>>=◌, ◌>>◌}
use cat_syn.Plugin.Fetch.{
  Fetch, GetFrame, request_frame_filter, get_frame_filter, new_frame, free_frame, no_frame,
  return_frame,
}
use cat_syn.Plugin.Create.{Create, free_node, free}

-- A plane that is being written: its samples by row and column, none where nothing is written yet.
abbrev pub Store : Type 0
Store = ℕ → ℕ → Option ℕ

unfoldable pub put : Store → ℕ → ℕ → ℕ → Store
put st row column v x y = if (x == row) && (y == column) then some v else st x y

-- `dst[j][i] = src[i][j]`. Both have to be there: the plane written has `dh` rows of `dw` samples.
unfoldable pub copy_cell : Plane → ℕ → ℕ → ℕ → ℕ → Store → Option Store
unfolding put
copy_cell rows dw dh i j st =
    bind (sample rows i j) λ v. if ltb j dh && ltb i dw then some (put st j i v) else none

-- `for (i = ...; i < b; i += step)`; it has no result where the fuel ends before the loop does.
unfoldable pub loop : (ℕ → Store → Option Store) → ℕ → ℕ → ℕ → ℕ → Store → Option Store
loop body b step zero i st = if ltb i b then none else some st
loop body b step (suc fuel) i st = elim (ltb i b) [
  | false ↦ some st
  | true ↦ bind (body i st) (loop body b step fuel (i + step))
]

-- A loop from a to b: as many rounds as b are enough.
abbrev pub for_to : (ℕ → Store → Option Store) → ℕ → ℕ → ℕ → Store → Option Store
for_to body a b step = loop body b step b a

-- `BLOCK_WIDTH_BYTE`, `BLOCK_HEIGHT_BYTE` and those of the other sizes; transpose_block_byte and its
-- like copy one sample.
abbrev pub block : ℕ
block = 1

-- The loop body for as many rows as fit a cache line.
unfoldable pub line_rows : Plane → ℕ → ℕ → ℕ → ℕ → ℕ → Store → Option Store
line_rows rows dw dh line width i st =
    bind
      (for_to (λ j. for_to (λ ii. copy_cell rows dw dh ii j) i (i + line) block) 0
        (width - width % block) block st)
      (for_to (λ j. for_to (λ ii. copy_cell rows dw dh ii j) i (i + line) 1) (width - width % block)
        width 1)

-- The loop body for the rows of a block.
unfoldable pub block_rows : Plane → ℕ → ℕ → ℕ → ℕ → Store → Option Store
block_rows rows dw dh width i st =
    bind (for_to (λ j. copy_cell rows dw dh i j) 0 (width - width % block) block st) (
      for_to (λ j. for_to (λ ii. copy_cell rows dw dh ii j) i (i + block) 1) (width - width % block)
        width 1)

-- The loop body for one row.
unfoldable pub one_row : Plane → ℕ → ℕ → ℕ → ℕ → Store → Option Store
one_row rows dw dh width i = for_to (λ j. copy_cell rows dw dh i j) 0 width 1

-- `transpose_plane_byte` and its like: `line` is how many samples a cache line has, and the first loop
-- ends at a multiple of `floor`.
unfoldable pub transpose_plane : ℕ → ℕ → Plane → ℕ → ℕ → ℕ → ℕ → Option Store
transpose_plane line floor rows dw dh width height =
    bind (for_to (line_rows rows dw dh line width) 0 (height - height % floor) line (λ x y. none))
      λ st.
        bind
          (for_to (block_rows rows dw dh width) (height - height % floor) (height - height % block)
            block st)
          (for_to (one_row rows dw dh width) (height - height % block) height 1)

-- The scalar switch over the sample size; transpose_plane_dword takes CACHELINE_SIZE_BYTE for its
-- `height_floor`. No function is called for another size, and the plane is left unwritten.
unfoldable pub scalar_function : ℕ → Plane → ℕ → ℕ → ℕ → ℕ → Option Store
scalar_function bytes rows dw dh width height =
    if bytes == 1
    then transpose_plane 64 64 rows dw dh width height
    else if bytes == 2
    then transpose_plane 32 32 rows dw dh width height
    else if bytes == 4
    then transpose_plane 16 64 rows dw dh width height
    else some (λ x y. none)

-- `VS_CPU_LEVEL_SSE2`
abbrev pub cpu_level_sse2 : ℕ
cpu_level_sse2 = 1

-- What is written of a plane, by the sample size: the rows of the source, the samples of a row and the
-- rows of the plane written, and the width and height of the source.
abbrev pub PlaneFunction : Type 0
PlaneFunction = ℕ → Plane → ℕ → ℕ → ℕ → ℕ → Option Store

-- The choice of `func`: from SSE2 on it is vs_transpose_plane_byte_sse2 or one of its like, where the
-- sample size has one. They are sequences of the compiler's intrinsics, a parameter of the filter of
-- which nothing is assumed.
unfoldable pub plane_function : PlaneFunction → ℕ → PlaneFunction
plane_function sse2 cpulevel bytes rows dw dh width height =
    if leb cpu_level_sse2 cpulevel && supported bytes
    then sse2 bytes rows dw dh width height
    else scalar_function bytes rows dw dh width height

-- A row of a plane as it is written in the end, and all of its rows.
unfoldable pub written_row : Store → ℕ → ℕ → ℕ → Option (List ℕ)
written_row st x y zero = some []
written_row st x y (suc count) =
    bind (st x y) λ v. bind (written_row st x (suc y) count) λ rest. some (v ∷ rest)

unfoldable pub written_rows : Store → ℕ → ℕ → ℕ → Option Plane
written_rows st dw x zero = some []
written_rows st dw x (suc count) =
    bind (written_row st x 0 dw)
      λ row. bind (written_rows st dw (suc x) count) λ rest. some (row ∷ rest)

pub record TransposeData : Type 0 where
  pub node : NodeRef
  pub vi : VideoInfo
  pub cpulevel : ℕ

pub transpose_init : TransposeData → VideoInfo
transpose_init d = d.vi

-- The frame that all planes are written to.
abbrev pub turned : TransposeData → Format → Frame → List Plane → Frame
turned d format src planes = new_video_frame format d.vi.width d.vi.height src planes

-- The loop body of transposeGetFrame over the planes.
unfoldable pub transpose_frame_plane :
    PlaneFunction → TransposeData → Format → Frame → ℕ → Option Plane
transpose_frame_plane sse2 d format src p = bind (get_read_ptr src p) λ rows.
    let dst = turned d format src [] in
    bind
      (plane_function sse2 d.cpulevel format.bytes_per_sample rows (plane_width dst p)
        (plane_height dst p) (unsigned32 (get_frame_width src p))
        (unsigned32 (get_frame_height src p)))
      λ st. written_rows st (plane_width dst p) 0 (plane_height dst p)

pub transpose_getframe : PlaneFunction → TransposeData → GetFrame (Unit {0})
transpose_getframe sse2 d n ar_initial = do request_frame_filter n d.node; no_frame
transpose_getframe sse2 d n ar_all_frames_ready = do
  src ← get_frame_filter n d.node
  format ← need d.vi.format
  planes ← need (each_plane (transpose_frame_plane sse2 d format src) 0 format.num_planes)
  new_frame (turned d format src [])
  free_frame src
  return_frame (turned d format src planes)
transpose_getframe sse2 d n _ = no_frame
