-- ===== src/Reorder/Reverse/Laws.antt =====
-- Reverse turns a clip round, and turning it round twice gives the clip back.
use cat_syn.Prelude.{ℕ, ◌-◌, ◌<◌, ◌≡◌, ◌∙◌, sym, ap, some, arith}
use cat_syn.Prelude.Int.{pos, int_sub-pos}
use cat_syn.Plugin.Types.{NodeRef, Frame}
use cat_syn.Plugin.VsMap.{VsMap, prop_get_node}
use cat_syn.Plugin.Helper.{SingleClipData, single_clip_free, vs_max}
use cat_syn.Plugin.Fetch.{FrameSource, run_frame, source-pos, frame, find_input}
use cat_syn.Plugin.Create.{Settles, invoke, created, nf_no_cache}
use cat_syn.Reorder.Reverse.{reverse_getframe, reverse_create}

-- Given a clip, reverseCreate always makes a filter with the clip's own video info, and the filter's
-- free function releases the one node reference and the one block that are held.
pub reverse_create_lem :
    (in_map : VsMap) (v : NodeRef)
    → (prop_get_node in_map "clip" 0).0 ≡ some v
    → (invoke (reverse_create in_map)
        ≡ created
            (record {
              name = "Reverse";
              vi = v.vi;
              flags = nf_no_cache;
              instance_data = record { node = v; vi = v.vi };
            })
            1
            1)
      × Settles (λ d. single_clip_free d.node) (invoke (reverse_create in_map))
unfolding reverse_create
reverse_create_lem in_map v h = ground arith

-- Frame n of the reversed clip of `len` frames is frame `len - 1 - n` of the source.
pub reverse_selects :
    (d : SingleClipData) (serve : FrameSource → Frame) (len n : ℕ)
    → d.vi.num_frames ≡ pos len
    → len < 2147483648
    → n < len
    → run_frame (reverse_getframe d) serve (pos n)
      ≡ frame (serve (record { substrate = d.node.substrate; frame_idx = len - 1 - n })) 0 0
unfolding reverse_getframe vs_max find_input
reverse_selects d serve len n frames small within =
    ground (arith, int_sub-pos len n, int_sub-pos (len - n) 1, source-pos d.node (len - n - 1))

-- A reversed clip that is reversed again delivers frame n of the first source as its frame n, where
-- the core answers requests to the node of the second filter by running the first.
pub reverse_twice :
    (d e : SingleClipData) (serve served : FrameSource → Frame) (len n : ℕ)
    → d.vi.num_frames ≡ pos len
    → e.vi.num_frames ≡ pos len
    → len < 2147483648
    → n < len
    → ((k : ℕ)
        → k < len
        → run_frame (reverse_getframe d) serve (pos k)
          ≡ frame (served (record { substrate = e.node.substrate; frame_idx = k })) 0 0)
    → run_frame (reverse_getframe e) served (pos n)
      ≡ frame (serve (record { substrate = d.node.substrate; frame_idx = n })) 0 0
reverse_twice d e serve served len n frames frames' small within chained =
    reverse_selects e served len n frames' small within
    ∙ sym (chained (len - 1 - n) (omega arith))
    ∙ reverse_selects d serve len (len - 1 - n) frames small (omega arith)
    ∙ ap (λ k. frame (serve (record { substrate = d.node.substrate; frame_idx = k })) 0 0)
        (omega arith)
