-- ===== src/Reorder/SelectEvery.antt =====
-- SelectEvery, of VapStd/reorderfilters.c.
pub mod Laws
pub mod Frames
mod Tests
use cat_syn.Prelude.{
  ℕ, Bool, true, false, Option, none, some, List, [], ◌∷◌, ◌||◌, not, get_elem?, if◌then◌else◌,
  ◌==◌,
}
use cat_syn.Prelude.Int.{ℤ, pos, pos_part, ltb_ℤ, leb_ℤ, eqb_ℤ, int_add, int_mul, int_div, int_mod}
use cat_syn.Plugin.Types.{VideoInfo, NodeRef, ar_initial, ar_all_frames_ready}
use cat_syn.Plugin.VsMap.{VsMap, prop_get_int, prop_num_elements}
use cat_syn.Plugin.Helper.{int64_to_int_s}
use cat_syn.Plugin.Rational.{muldiv_rational}
use cat_syn.Plugin.Clips.{read_ints}
use cat_syn.Plugin.Action.{when, branch, need, ◌>>=◌, ◌>>◌}
use cat_syn.Plugin.Fetch.{
  GetFrame, request_frame_filter, get_frame_filter, copy_frame, free_frame, set_frame_data,
  get_frame_data, no_frame, return_frame,
}
use cat_syn.Plugin.Create.{
  Create, ret_error, get_int, get_node, free_node, malloc, free, create_filter, nf_no_cache,
}
use cat_syn.Reorder.Duration.{scale_duration}

pub record SelectEveryData : Type 0 where
  pub node : NodeRef
  pub vi : VideoInfo
  pub cycle : ℤ
  pub offsets : List ℤ
  pub num : ℤ
  pub modify_duration : Bool

pub select_every_init : SelectEveryData → VideoInfo
select_every_init d = d.vi

-- `*frameData` is the number of the source frame.
pub select_every_getframe : SelectEveryData → GetFrame ℤ
select_every_getframe d n ar_initial = do
  offset ← need (get_elem? d.offsets (pos_part (int_mod n d.num)))
  let frame = int_add (int_mul (int_div n d.num) d.cycle) offset
  set_frame_data frame
  request_frame_filter frame d.node
  no_frame
select_every_getframe d n ar_all_frames_ready = do
  frame ← get_frame_data
  src ← get_frame_filter frame d.node
  branch d.modify_duration
      (do
        dst ← copy_frame src
        scaled ← scale_duration d.cycle d.num dst
        free_frame src
        return_frame scaled)
      (return_frame src)
select_every_getframe d n _ = no_frame

-- `selectEveryFree`
pub select_every_free : SelectEveryData → Create SelectEveryData (Unit {0})
select_every_free d = do free; free_node d.node; free

-- The loop that counts a frame for each offset within the last, partial cycle.
unfoldable pub count_partial : ℤ → ℤ → List ℤ → ℤ
count_partial frames left [] = frames
count_partial frames left (o ∷ rest) =
    count_partial (if ltb_ℤ o left then int_add frames (pos 1) else frames) left rest

-- The length of the result, 0 for a source of unknown length.
unfoldable pub select_every_frames : ℤ → ℤ → ℤ → List ℤ → ℤ
unfolding count_partial
select_every_frames inputnframes cycle num offsets =
    if eqb_ℤ inputnframes (pos 0)
    then inputnframes
    else count_partial (int_mul (int_div inputnframes cycle) num) (int_mod inputnframes cycle)
        offsets

unfoldable pub selected_rate : Bool → VideoInfo → ℤ → ℤ → Option (ℤ × ℤ)
selected_rate modify_duration vi num cycle =
    if modify_duration
    then muldiv_rational vi.fps_num vi.fps_den num cycle
    else some (vi.fps_num, vi.fps_den)

abbrev pub bad_offset : ℤ → ℤ → Bool
bad_offset cycle o = ltb_ℤ o (pos 0) || leb_ℤ cycle o

abbrev pub fail_offset : Create SelectEveryData (Unit {0})
fail_offset = do free; ret_error "SelectEvery: invalid offset specified"

pub select_every_create : VsMap → Create SelectEveryData (Unit {0})
unfolding select_every_init
select_every_create in_map = do
  cycle_value ← get_int in_map "cycle" 0
  let cycle = int64_to_int_s cycle_value
  when (leb_ℤ cycle (pos 1)) (ret_error "SelectEvery: invalid cycle size (must be greater than 1)")
  let num = prop_num_elements in_map "offsets"
  let (modify_value, err) = prop_get_int in_map "modify_duration" 0
  let modify_duration = if err == 0 then not (eqb_ℤ modify_value (pos 0)) else true
  malloc
  offsets ← read_ints in_map "offsets" (bad_offset cycle) fail_offset 0 (pos_part num)
  node ← get_node in_map "clip" 0
  let frames = select_every_frames node.vi.num_frames cycle num offsets
  when (eqb_ℤ frames (pos 0)) do
    free_node node
    free
    ret_error "SelectEvery: no frames to output, all offsets outside available frames"
  (fps_num, fps_den) ← need (selected_rate modify_duration node.vi num cycle)
  malloc
  create_filter "SelectEvery" select_every_init nf_no_cache (record {
    node = node;
    vi = record (node.vi) { num_frames = frames; fps_num = fps_num; fps_den = fps_den };
    cycle = cycle;
    offsets = offsets;
    num = num;
    modify_duration = modify_duration;
  })
