-- ===== src/Reorder/Reverse/Tests.antt =====
-- Runs of Reverse on a clip of 100 frames.
use cat_syn.Prelude.{◌-◌, ◌≡◌, refl, [], ◌∷◌, arith}
use cat_syn.Prelude.Int.{pos}
use cat_syn.Plugin.Types.{Frame, nodes}
use cat_syn.Plugin.VsMap.{VsMap}
use cat_syn.Plugin.Helper.{SingleClipData}
use cat_syn.Plugin.Fetch.{FrameSource, run_frame, frame}
use cat_syn.Reorder.Sample.{clip_of, numbered}
use cat_syn.Reorder.Reverse.{reverse_getframe}
use cat_syn.Reorder.Reverse.Laws.{reverse_selects, reverse_twice}

abbrev args : VsMap
args = ("clip", nodes (clip_of 7 100 ∷ [])) ∷ []

-- Substrate 7 is a source, and 8 the first Reverse, which the second one reads.
abbrev first_data : SingleClipData
first_data = record { node = clip_of 7 100; vi = (clip_of 7 100).vi }

abbrev second_data : SingleClipData
second_data = record { node = clip_of 8 100; vi = (clip_of 8 100).vi }

abbrev served : FrameSource → Frame
served k = numbered (record { substrate = 7; frame_idx = 100 - 1 - k.frame_idx })

reverse_twice_example :
    run_frame (reverse_getframe second_data) served (pos 3)
    ≡ frame (numbered (record { substrate = 7; frame_idx = 3 })) 0 0
reverse_twice_example =
    reverse_twice first_data second_data numbered served 100 3 refl refl (omega arith) (omega arith)
      (λ k h. reverse_selects first_data numbered 100 k refl (omega arith) h)
