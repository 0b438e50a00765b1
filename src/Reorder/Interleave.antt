-- ===== src/Reorder/Interleave.antt =====
-- Interleave, of VapStd/reorderfilters.c.
pub mod Laws
pub mod Frames
mod Tests
use cat_syn.Prelude.{
  ℕ, zero, suc, Bool, true, false, Option, none, some, List, [], ◌∷◌, String, ◌&&◌, ◌||◌, not,
  get_elem?, if◌then◌else◌, ◌==◌,
}
use cat_syn.Prelude.Int.{
  ℤ, pos, pos_part, ltb_ℤ, eqb_ℤ, int_add, int_sub, int_mul, int_div, int_mod, int_max,
}
use cat_syn.Plugin.Types.{VideoInfo, NodeRef, Frame, ar_initial, ar_all_frames_ready}
use cat_syn.Plugin.VsMap.{VsMap, prop_get_int, prop_set_int, prop_num_elements}
use cat_syn.Plugin.Helper.{vs_max}
use cat_syn.Plugin.Rational.{muldiv_rational}
use cat_syn.Plugin.Clips.{get_clips, free_nodes, any_compat}
use cat_syn.Plugin.Action.{when, branch, need, pure, skip, ◌>>=◌, ◌>>◌}
use cat_syn.Plugin.Fetch.{
  Fetch, GetFrame, request_frame_filter, get_frame_filter, copy_frame, free_frame, no_frame,
  return_frame,
}
use cat_syn.Plugin.Create.{
  Create, ret_error, get_node, free_node, set_clip, malloc, free, create_filter, nf_no_cache,
}
use cat_syn.Reorder.Duration.{scale_duration}
use cat_syn.Reorder.Shared.{
  MismatchCause, different_dimensions, different_formats, different_frame_rates, different_lengths,
  Common, find_common_vi,
}

pub record InterleaveData : Type 0 where
  pub node : List NodeRef
  pub vi : VideoInfo
  pub numclips : ℤ
  pub modify_duration : Bool

pub interleave_init : InterleaveData → VideoInfo
interleave_init d = d.vi

-- `d->node[n % d->numclips]`
abbrev pub clip_at : List NodeRef → ℤ → Option NodeRef
clip_at nodes i = get_elem? nodes (pos_part i)

pub interleave_getframe : InterleaveData → GetFrame (Unit {0})
unfolding scale_duration
interleave_getframe d n ar_initial = do
  v ← need (clip_at d.node (int_mod n d.numclips))
  request_frame_filter (int_div n d.numclips) v
  no_frame
interleave_getframe d n ar_all_frames_ready = do
  v ← need (clip_at d.node (int_mod n d.numclips))
  src ← get_frame_filter (int_div n d.numclips) v
  branch d.modify_duration
      (do
        dst ← copy_frame src
        free_frame src
        scaled ← scale_duration (pos 1) d.numclips dst
        return_frame scaled)
      (return_frame src)
interleave_getframe d n _ = no_frame

-- `interleaveFree`
pub interleave_free : InterleaveData → Create InterleaveData (Unit {0})
interleave_free d = do free_nodes d.node; free; free

abbrev pub interleave_mismatch : MismatchCause → String
interleave_mismatch different_dimensions = "Interleave: the clips' dimensions don't match"
interleave_mismatch different_formats = "Interleave: the clips' formats don't match"
interleave_mismatch different_frame_rates = "Interleave: the clips' frame rates don't match"
interleave_mismatch different_lengths = "Interleave: the clips' lengths don't match"

-- The loop over the clips that finds the last frame that one of them has; i is the clip's number.
unfoldable pub longest : ℤ → ℕ → List NodeRef → ℤ × Bool → ℤ × Bool
longest numclips i [] acc = acc
longest numclips i (v ∷ rest) (frames, overflow) = longest numclips (suc i) rest (
  vs_max frames
      (int_add (int_add (int_mul (int_sub v.vi.num_frames (pos 1)) numclips) (pos i)) (pos 1)),
  overflow
      || ltb_ℤ (int_add (int_div (int_sub (int_sub int_max (pos i)) (pos 1)) numclips) (pos 1))
          v.vi.num_frames,
)

first_frames : List NodeRef → ℤ
first_frames [] = pos 0
first_frames (v ∷ rest) = v.vi.num_frames

-- The number of frames of the result, and whether it overflows an int.
unfoldable pub interleave_frames : Bool → ℤ → List NodeRef → ℤ → ℤ × Bool
unfolding first_frames
interleave_frames extend frames nodes numclips =
    if extend
    then (int_mul frames numclips, ltb_ℤ (int_div int_max numclips) frames)
    else if eqb_ℤ frames (pos 0)
    then (frames, false)
    else longest numclips 0 nodes
        (int_add (int_mul (int_sub (first_frames nodes) (pos 1)) numclips) (pos 1), false)

-- `mismatchCause && (!mismatch || compat)`
abbrev pub refused : Option MismatchCause → Bool → Bool → Bool
refused none mismatch compat = false
refused (some cause) mismatch compat = not mismatch || compat

abbrev pub message : (MismatchCause → String) → Option MismatchCause → String
message f none = ""
message f (some cause) = f cause

unfoldable pub scaled_rate : Bool → VideoInfo → ℤ → Option (ℤ × ℤ)
scaled_rate modify_duration vi numclips =
    if modify_duration
    then muldiv_rational vi.fps_num vi.fps_den numclips (pos 1)
    else some (vi.fps_num, vi.fps_den)

-- The branch for any number of clips but one.
pub interleave_clips : VsMap → Bool → Bool → Bool → ℤ → Create InterleaveData (Unit {0})
unfolding interleave_init
interleave_clips in_map mismatch extend modify_duration numclips = do
  malloc
  nodes ← get_clips in_map "clips" 0 (pos_part numclips)
  c ← need (find_common_vi nodes true)
  when (refused c.mismatch mismatch (any_compat nodes))
      do free_nodes nodes; free; ret_error (message interleave_mismatch c.mismatch)
  let (frames, overflow) = interleave_frames extend c.vi.num_frames nodes numclips
  when overflow do free_nodes nodes; free; ret_error "Interleave: resulting clip is too long"
  (fps_num, fps_den) ← need (scaled_rate modify_duration c.vi numclips)
  malloc
  create_filter "Interleave" interleave_init nf_no_cache (record {
    node = nodes;
    vi = record (c.vi) { num_frames = frames; fps_num = fps_num; fps_den = fps_den };
    numclips = numclips;
    modify_duration = modify_duration;
  })

pub interleave_create : VsMap → Create InterleaveData (Unit {0})
interleave_create in_map =
    let mismatch = not (eqb_ℤ (prop_get_int in_map "mismatch" 0).0 (pos 0)) in
    let extend = not (eqb_ℤ (prop_get_int in_map "extend" 0).0 (pos 0)) in
    let (modify_value, err) = prop_get_int in_map "modify_duration" 0 in
    let modify_duration = if err == 0 then not (eqb_ℤ modify_value (pos 0)) else true in
    let numclips = prop_num_elements in_map "clips" in
    branch (eqb_ℤ numclips (pos 1))
      (do cref ← get_node in_map "clips" 0; set_clip cref; free_node cref)
      (interleave_clips in_map mismatch extend modify_duration numclips)
