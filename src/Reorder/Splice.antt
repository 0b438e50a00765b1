-- ===== src/Reorder/Splice.antt =====
-- Splice, of VapStd/reorderfilters.c.
pub mod Laws
pub mod Frames
mod Tests
use cat_syn.Prelude.{
  ℕ, zero, suc, Bool, true, false, Option, none, some, List, [], ◌∷◌, String, ◌&&◌, ◌||◌, not, map,
  get_elem?, if◌then◌else◌,
}
use cat_syn.Prelude.Int.{ℤ, pos, pos_part, ltb_ℤ, leb_ℤ, eqb_ℤ, int_add, int_sub}
use cat_syn.Plugin.Types.{VideoInfo, NodeRef, ar_initial, ar_all_frames_ready}
use cat_syn.Plugin.VsMap.{VsMap, prop_get_int, prop_num_elements}
use cat_syn.Plugin.Helper.{is_same_format}
use cat_syn.Plugin.Clips.{get_clips, free_nodes, any_compat}
use cat_syn.Plugin.Action.{Action, fault, when, branch, need, pure, skip, ◌>>=◌, ◌>>◌}
use cat_syn.Plugin.Fetch.{
  GetFrame, request_frame_filter, get_frame_filter, set_frame_data, get_frame_data, no_frame,
  return_frame,
}
use cat_syn.Plugin.Fetch
use cat_syn.Plugin.Create.{
  Create, ret_error, get_node, free_node, set_clip, malloc, free, create_filter, nf_no_cache,
}
use cat_syn.Reorder.Shared.{
  MismatchCause, different_dimensions, different_formats, different_frame_rates, different_lengths,
  find_common_vi,
}

pub record SpliceData : Type 0 where
  pub node : List NodeRef
  pub vi : VideoInfo
  pub numframes : List ℤ
  pub numclips : ℤ

pub splice_init : SpliceData → VideoInfo
splice_init d = d.vi

pub record SpliceCtx : Type 0 where
  pub f : ℤ
  pub idx : ℕ

abbrev pub is_last : List ℤ → Bool
is_last [] = true
is_last (x ∷ xs) = false

-- The loop over the clips, i being the number of the first of those that are left.
unfoldable pub splice_find : ℤ → ℤ → ℕ → List ℤ → SpliceCtx
splice_find n cumframe i [] = record { f = pos 0; idx = 0 }
splice_find n cumframe i (len ∷ rest) =
    let later = splice_find n (int_add cumframe len) (suc i) rest in
    if (leb_ℤ cumframe n && ltb_ℤ n (int_add cumframe len)) || is_last rest
    then record { f = int_sub n cumframe; idx = i }
    else later

pub splice_getframe : SpliceData → GetFrame SpliceCtx
splice_getframe d n ar_initial = do
  Fetch.malloc
  let s = splice_find n (pos 0) 0 d.numframes
  set_frame_data s
  v ← need (get_elem? d.node s.idx)
  request_frame_filter s.f v
  no_frame
splice_getframe d n ar_all_frames_ready = do
  s ← get_frame_data
  v ← need (get_elem? d.node s.idx)
  f ← get_frame_filter s.f v
  Fetch.free
  return_frame f
splice_getframe d n _ = no_frame

-- `spliceFree`
pub splice_free : SpliceData → Create SpliceData (Unit {0})
splice_free d = do free_nodes d.node; free; free; free

abbrev pub splice_mismatch : Option MismatchCause → String
splice_mismatch none = ""
splice_mismatch (some different_dimensions) = "Splice: the clips' dimensions don't match"
splice_mismatch (some different_formats) = "Splice: the clips' formats don't match"
splice_mismatch (some different_frame_rates) = "Splice: the clips' frame rates don't match"
splice_mismatch (some different_lengths) = "Splice: the clips' lengths don't match"

abbrev pub refused : Option MismatchCause → Bool → Bool → Bool
refused none mismatch compat = false
refused (some cause) mismatch compat = not mismatch || compat

abbrev crash : Create SpliceData (Unit {0})
crash s = (fault, s)

-- The clean-up `for (int j = 0; j < d.numclips; i++) freeNode(d.node[j])`: j never moves on, so the
-- first node is released, and then released again.
unfoldable pub free_first_for_ever : List NodeRef → Create SpliceData (Unit {0})
free_first_for_ever [] = skip
free_first_for_ever (v ∷ rest) = do free_node v; crash

-- The loop that adds up the lengths, with its overflow test; `nodes` are all the clips.
unfoldable pub sum_frames : List NodeRef → ℤ → List NodeRef → Create SpliceData ℤ
unfolding free_first_for_ever
sum_frames nodes total [] = pure total
sum_frames nodes total (v ∷ rest) = do
  let total' = int_add total v.vi.num_frames
  when (ltb_ℤ total' v.vi.num_frames)
      do free_first_for_ever nodes; free; free; ret_error "Splice: the resulting clip is too long"
  sum_frames nodes total' rest

abbrev pub lengths : List NodeRef → List ℤ
lengths [] = []
lengths (v ∷ rest) = v.vi.num_frames ∷ lengths rest

abbrev pub same_as_first : VideoInfo → List NodeRef → Bool
same_as_first vi [] = false
same_as_first vi (v ∷ rest) = is_same_format vi v.vi

-- The branch for any number of clips but one.
pub splice_clips : VsMap → Bool → ℤ → Create SpliceData (Unit {0})
unfolding splice_init
splice_clips in_map mismatch numclips = do
  malloc
  nodes ← get_clips in_map "clips" 0 (pos_part numclips)
  c ← need (find_common_vi nodes true)
  when (refused c.mismatch mismatch (any_compat nodes) && not (same_as_first c.vi nodes))
      do free_nodes nodes; free; ret_error (splice_mismatch c.mismatch)
  malloc
  total ← sum_frames nodes (pos 0) nodes
  malloc
  create_filter "Splice" splice_init nf_no_cache (record {
    node = nodes;
    vi = record (c.vi) { num_frames = total };
    numframes = lengths nodes;
    numclips = numclips;
  })

pub splice_create : VsMap → Create SpliceData (Unit {0})
splice_create in_map =
    let numclips = prop_num_elements in_map "clips" in
    let mismatch = not (eqb_ℤ (prop_get_int in_map "mismatch" 0).0 (pos 0)) in
    branch (eqb_ℤ numclips (pos 1))
      (do cref ← get_node in_map "clips" 0; set_clip cref; free_node cref)
      (splice_clips in_map mismatch numclips)
