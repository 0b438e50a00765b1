-- ===== src/Reorder/Shared/Tests.antt =====
-- A run of findCommonVi on two clips of one format.
use cat_syn.Prelude.{ℕ, get_elem?, ◌≡◌, true, some, [], ◌∷◌, All}
use cat_syn.Prelude.Int.{pos, ◌≤ℤ◌}
use cat_syn.Plugin.Types.{NodeRef, eq_format}
use cat_syn.Reorder.Sample.{clip_of}
use cat_syn.Reorder.Shared.{Common, find_common_vi}
use cat_syn.Reorder.Shared.Laws.{find_common_vi_lem, is_none, agrees}

find_common_vi_lem_example :
    (c : Common) × (find_common_vi (clip_of 7 100 ∷ clip_of 8 150 ∷ []) true ≡ some c)
    × (is_none c.mismatch ≡ true)
    × (true ≡ true → agrees (clip_of 7 100).vi c.vi ≡ true)
    × ((i : ℕ) × (w : NodeRef) × (get_elem? (clip_of 7 100 ∷ clip_of 8 150 ∷ []) i ≡ some w)
        × (c.vi.num_frames ≡ w.vi.num_frames))
    × (pos 100 ≤ℤ c.vi.num_frames)
    × All (λ w. w.vi.num_frames ≤ℤ c.vi.num_frames) (clip_of 8 150 ∷ [])
unfolding eq_format
find_common_vi_lem_example = find_common_vi_lem (clip_of 7 100) (clip_of 8 150 ∷ [])
