-- ===== src/Reorder/FreezeFrames.antt =====
-- FreezeFrames, of VapStd/reorderfilters.c.
pub mod Laws
pub mod Ranges
mod Tests
use cat_syn.Prelude.{
  ℕ, zero, suc, Bool, String, false, some, List, [], ◌∷◌, ◌&&◌, ◌||◌, not, get_elem?, if◌then◌else◌,
}
use cat_syn.Prelude.Int.{ℤ, pos, pos_part, ltb_ℤ, leb_ℤ, eqb_ℤ, int_sub}
use cat_syn.Plugin.Types.{VideoInfo, NodeRef, ar_initial, ar_all_frames_ready}
use cat_syn.Plugin.VsMap.{VsMap, prop_num_elements}
use cat_syn.Plugin.Helper.{int64_to_int_s}
use cat_syn.Plugin.Qsort.{Qsort}
use cat_syn.Plugin.Action.{when, modify, need, pure, return_early, ◌>>=◌, ◌>>◌}
use cat_syn.Plugin.Fetch.{
  GetFrame, request_frame_filter, get_frame_filter, set_frame_data, get_frame_data, no_frame,
  return_frame,
}
use cat_syn.Plugin.Create.{
  Create, ret_error, get_int, get_node, free_node, malloc, free, create_filter, nf_no_cache,
}

pub record Freeze : Type 0 where
  pub first : ℤ
  pub last : ℤ
  pub replacement : ℤ

pub record FreezeFramesData : Type 0 where
  pub node : NodeRef
  pub vi : VideoInfo
  pub freeze : List Freeze
  pub num_freeze : ℤ

pub freeze_frames_init : FreezeFramesData → VideoInfo
freeze_frames_init d = d.vi

abbrev pub covers : ℤ → Freeze → Bool
covers n r = leb_ℤ r.first n && leb_ℤ n r.last

-- The loop that looks for the range that n is in.
unfoldable pub freeze_index : ℤ → List Freeze → ℤ
freeze_index n [] = n
freeze_index n (r ∷ rest) =
    let later = freeze_index n rest in if covers n r then r.replacement else later

-- The frame to request; `head` and `end` are the first and the last of the ranges.
unfoldable pub frozen : ℤ → Freeze → Freeze → List Freeze → ℤ
frozen n head end ranges =
    if leb_ℤ head.first n && leb_ℤ n end.last then freeze_index n ranges else n

pub freeze_frames_getframe : FreezeFramesData → GetFrame ℤ
freeze_frames_getframe d n ar_initial = do
  head ← need (get_elem? d.freeze 0)
  end ← need (get_elem? d.freeze (pos_part (int_sub d.num_freeze (pos 1))))
  let frame = frozen n head end d.freeze
  set_frame_data frame
  request_frame_filter frame d.node
  no_frame
freeze_frames_getframe d n ar_all_frames_ready = do
  frame ← get_frame_data
  return_frame (← get_frame_filter frame d.node)
freeze_frames_getframe d n _ = no_frame

-- `freezeFramesFree`
pub freeze_frames_free : FreezeFramesData → Create FreezeFramesData (Unit {0})
freeze_frames_free d = do free_node d.node; free; free

-- `freezeFramesSort`
unfoldable pub freeze_frames_sort : Freeze → Freeze → ℤ
freeze_frames_sort x y = int_sub x.first y.first

-- A range with its ends in order.
unfoldable pub freeze_of : ℤ → ℤ → ℤ → Freeze
freeze_of first last replacement =
    if ltb_ℤ last first
    then record { first = last; last = first; replacement = replacement }
    else record { first = first; last = last; replacement = replacement }

unfoldable pub bad_range : ℤ → Freeze → Bool
bad_range num_frames r =
    ltb_ℤ r.first (pos 0)
    || (not (eqb_ℤ num_frames (pos 0)) && leb_ℤ num_frames r.last)
    || ltb_ℤ r.replacement (pos 0)
    || (not (eqb_ℤ num_frames (pos 0)) && leb_ℤ num_frames r.replacement)

abbrev pub fail_range : NodeRef → String → Create FreezeFramesData (Unit {0})
fail_range node message = do
  modify (λ s. record s { error = some message })
  free_node node
  free
  return_early

-- The loop that reads the ranges, from index i for so many rounds.
unfoldable pub read_ranges : VsMap → ℤ → NodeRef → ℕ → ℕ → Create FreezeFramesData (List Freeze)
read_ranges m num_frames node i zero = pure []
read_ranges m num_frames node i (suc rounds) = do
  first ← get_int m "first" i
  last ← get_int m "last" i
  replacement ← get_int m "replacement" i
  let r = freeze_of (int64_to_int_s first) (int64_to_int_s last) (int64_to_int_s replacement)
  when (bad_range num_frames r) (fail_range node "FreezeFrames: out of bounds frame number(s)")
  rest ← read_ranges m num_frames node (suc i) rounds
  pure (r ∷ rest)

-- The loop that looks for a range that reaches into the next.
unfoldable pub overlap : List Freeze → Bool
overlap [] = false
overlap (r ∷ []) = false
overlap (r ∷ q ∷ rest) = leb_ℤ q.first r.last || overlap (q ∷ rest)

pub freeze_frames_create : Qsort freeze_frames_sort → VsMap → Create FreezeFramesData (Unit {0})
unfolding freeze_frames_init
freeze_frames_create qsort in_map = do
  let num_freeze = prop_num_elements in_map "first"
  when
      (not (eqb_ℤ num_freeze (prop_num_elements in_map "last"))
        || not (eqb_ℤ num_freeze (prop_num_elements in_map "replacement")))
      (ret_error "FreezeFrames: 'first', 'last', and 'replacement' must have the same length.")
  node ← get_node in_map "clip" 0
  malloc
  given ← read_ranges in_map node.vi.num_frames node 0 (pos_part num_freeze)
  let freeze = qsort.sort given
  when (overlap freeze) (fail_range node "FreezeFrames: the frame ranges must not overlap")
  malloc
  create_filter "FreezeFrames" freeze_frames_init nf_no_cache
      (record { node = node; vi = node.vi; freeze = freeze; num_freeze = num_freeze })
