-- ===== src/Reorder/Splice/Laws.antt =====
-- What spliceCreate leaves behind, and which frame of which clip each output frame is.
use cat_syn.Prelude.{
  ℕ, ◌+◌, ◌≤◌, ◌<◌, ◌≡◌, Bool, true, List, ◌∷◌, some, arith, length, map, get_elem?, All, not,
}
use cat_syn.Prelude.Int.{pos, IsInt64, eqb_ℤ}
use cat_syn.Plugin.Types.{NodeRef, Frame, nodes}
use cat_syn.Plugin.VsMap.{
  VsMap, find, prop_get_int, prop_get_node_of_find, prop_num_elements_of_find,
}
use cat_syn.Plugin.Clips.Laws.{get_clips_lem, free_nodes_lem}
use cat_syn.Plugin.Fetch.{FrameSource, run_frame, source-pos, frame, find_input}
use cat_syn.Plugin.Create.{Settles, invoke, start, crashed, Filter, created}
use cat_syn.Reorder.Shared.Laws.{find_common_vi-IsInt64, find_common_vi_lem, all_agree}
use cat_syn.Reorder.Splice.{
  SpliceData, splice_getframe, splice_free, splice_create, splice_clips, lengths,
}
use cat_syn.Reorder.Splice.Frames.{
  before, sum, before-lt-sum, splice_find_lem, HasLength, total_of, total_of-empty, sum_frames-fits,
  sum_frames-overflows,
}

-- Where the lengths add up to an int, frame j of clip m is delivered as the output frame whose number is j and the lengths of the clips
-- before m added up; the frame data that arInitial allocates is freed again.
pub splice_selects :
    (d : SpliceData) (serve : FrameSource → Frame) (ls : List ℕ) (m j : ℕ) {l : ℕ} {v : NodeRef}
    → d.numframes ≡ map pos ls
    → sum ls < 2147483648
    → get_elem? ls m ≡ some l
    → get_elem? d.node m ≡ some v
    → j < l
    → run_frame (splice_getframe d) serve (pos (before ls m + j))
      ≡ frame (serve (record { substrate = v.substrate; frame_idx = j })) 0 0
unfolding splice_getframe find_input
splice_selects d serve ls m j {l} {v} lens fits at clip within =
    ground
      (arith, splice_find_lem ls 0 0 m j at within, source-pos v j, before-lt-sum ls m j at within)

module _ (m : VsMap) (v : NodeRef) (vs : List NodeRef)
    (found : find "clips" m ≡ some (nodes (v ∷ vs))) (wide : IsInt64 v.vi.fps_den)
    (have : All HasLength (v ∷ vs)) where
  clips-Settles :
      (mismatch : Bool)
      → total_of (v ∷ vs) < 2147483648
      → Settles splice_free (invoke (splice_clips m mismatch (pos (length (v ∷ vs)))))
  unfolding splice_clips splice_free
  clips-Settles mismatch fits =
      let k = length (v ∷ vs) in
      let (c, common, _) = find_common_vi-IsInt64 v vs wide in
      ground (
        arith,
        get_clips_lem {D = SpliceData} m "clips" (v ∷ vs) found (record start { blocks = 1 }),
        common,
        sum_frames-fits (v ∷ vs) (v ∷ vs) 0 (record start { nodes = k; blocks = 2 }) have
            (omega arith),
        free_nodes_lem {D = SpliceData} (v ∷ vs) (record start { nodes = k; blocks = 1 }) 0,
        free_nodes_lem {D = SpliceData} (v ∷ vs) (record start { nodes = k; blocks = 3 }) 0,
      )

  -- Given one or more clips whose lengths add up to an int, the first with a 64-bit rate, spliceCreate
  -- never crashes and leaks nothing.
  pub splice_create-Settles :
      total_of (v ∷ vs) < 2147483648 → Settles splice_free (invoke (splice_create m))
  unfolding splice_create splice_free
  splice_create-Settles fits = ground (
    arith,
    prop_num_elements_of_find m "clips" found,
    prop_get_node_of_find m "clips" 0 found,
    clips-Settles (not (eqb_ℤ (prop_get_int m "mismatch" 0).0 (pos 0))) fits,
  )

  clips-frames :
      (mismatch : Bool) {f : Filter SpliceData} {k b : ℕ}
      → total_of (v ∷ vs) < 2147483648
      → invoke (splice_clips m mismatch (pos (length (v ∷ vs)))) ≡ created f k b
      → (f.vi.num_frames ≡ pos (total_of (v ∷ vs)))
        × (f.instance_data.node ≡ v ∷ vs)
        × (f.instance_data.numframes ≡ lengths (v ∷ vs))
  unfolding splice_clips
  clips-frames mismatch fits made =
      let k = length (v ∷ vs) in
      let (c, common, _) = find_common_vi-IsInt64 v vs wide in
      ground (
        arith,
        get_clips_lem {D = SpliceData} m "clips" (v ∷ vs) found (record start { blocks = 1 }),
        common,
        sum_frames-fits (v ∷ vs) (v ∷ vs) 0 (record start { nodes = k; blocks = 2 }) have
            (omega arith),
        free_nodes_lem {D = SpliceData} (v ∷ vs) (record start { nodes = k; blocks = 1 }) 0,
      )

  -- Where the lengths add up to an int, a spliced clip is as long as its clips together, and keeps
  -- them and their lengths in order.
  pub splice_create_frames :
      {f : Filter SpliceData} {k b : ℕ}
      → total_of (v ∷ vs) < 2147483648
      → invoke (splice_create m) ≡ created f k b
      → (f.vi.num_frames ≡ pos (total_of (v ∷ vs)))
        × (f.instance_data.node ≡ v ∷ vs)
        × (f.instance_data.numframes ≡ lengths (v ∷ vs))
  unfolding splice_create
  splice_create_frames {f} {k} {b} fits made = ground (
    arith,
    prop_num_elements_of_find m "clips" found,
    prop_get_node_of_find m "clips" 0 found,
    clips-frames (not (eqb_ℤ (prop_get_int m "mismatch" 0).0 (pos 0))) {f = f} {k = k} {b = b} fits,
  )

  clips-crash :
      (mismatch : Bool)
      → 2147483648 ≤ total_of (v ∷ vs)
      → all_agree v.vi vs ≡ true
      → invoke (splice_clips m mismatch (pos (length (v ∷ vs)))) ≡ crashed
  unfolding splice_clips
  clips-crash mismatch over same =
      let k = length (v ∷ vs) in
      let (c, common, agreed, _, _, _, _) = find_common_vi_lem v vs in
      ground (
        arith,
        get_clips_lem {D = SpliceData} m "clips" (v ∷ vs) found (record start { blocks = 1 }),
        common,
        agreed,
        sum_frames-overflows v vs (v ∷ vs) 0 (record start { nodes = k; blocks = 2 }) have
            (omega arith) (omega arith),
      )

  -- Where the clips have one format and their lengths add up to more than an int, and int addition
  -- wraps, spliceCreate does not get to its error message: the clean-up releases the first node again.
  pub splice_create_overflow :
      2147483648 ≤ total_of (v ∷ vs) → all_agree v.vi vs ≡ true → invoke (splice_create m) ≡ crashed
  unfolding splice_create
  splice_create_overflow over same = ground (
    arith,
    prop_num_elements_of_find m "clips" found,
    total_of-empty vs,
    clips-crash (not (eqb_ℤ (prop_get_int m "mismatch" 0).0 (pos 0))) over same,
  )
