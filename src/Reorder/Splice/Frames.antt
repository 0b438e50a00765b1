-- ===== src/Reorder/Splice/Frames.antt =====
-- Where a frame of a spliced clip comes from, and how long the clip is.
use native.Mathlib.Decide.{dec_lt}
use cat_syn.Prelude.{
  length, ℕ, zero, suc, ◌+◌, ◌≤◌, ◌<◌, ◌≡◌, refl, List, [], ◌∷◌, some, arith, map, get_elem?, All,
  true,
}
use cat_syn.Prelude.Int.{pos, pos_part, ltb_ℤ, int_add, int_add-pos, int_sub-pos}
use cat_syn.Plugin.Types.{NodeRef}
use cat_syn.Plugin.Action.{ok, fault}
use cat_syn.Plugin.Create.{CreateState}
use cat_syn.Reorder.Splice.{SpliceData, splice_find, sum_frames}

-- The number of frames in the first so many clips.
abbrev pub before : List ℕ → ℕ → ℕ
before [] m = 0
before (l ∷ ls) zero = 0
before (l ∷ ls) (suc m) = l + before ls m

abbrev pub sum : List ℕ → ℕ
sum [] = 0
sum (l ∷ ls) = l + sum ls

pub before-lt-sum :
    (ls : List ℕ) (m j : ℕ) {l : ℕ} → get_elem? ls m ≡ some l → j < l → before ls m + j < sum ls
before-lt-sum [] m j e h = cc
before-lt-sum (l ∷ ls) zero j e h = ground arith
before-lt-sum (l ∷ ls) (suc m) j e h = omega (arith, before-lt-sum ls m j e h)

-- The loop finds frame j of clip m at `before m + j`, from any sum of earlier lengths on.
pub splice_find_lem :
    (ls : List ℕ) (cum i m j : ℕ) {l : ℕ}
    → get_elem? ls m ≡ some l
    → j < l
    → cum + sum ls < 2147483648
    → splice_find (pos (cum + (before ls m + j))) (pos cum) i (map pos ls)
      ≡ record { f = pos j; idx = i + m }
unfolding splice_find
splice_find_lem [] cum i m j e h fits = cc
splice_find_lem (l ∷ ls) cum i zero j e h fits =
    ground (arith, int_add-pos cum l, int_sub-pos (cum + j) cum, int_sub-pos (cum + (0 + j)) cum)
splice_find_lem (l ∷ ls) cum i (suc m) j e h fits = ground (
  arith,
  int_add-pos cum l,
  before-lt-sum ls m j e h,
  splice_find_lem ls (cum + l) (suc i) m j e h,
)

abbrev pub frames_of : NodeRef → ℕ
frames_of v = pos_part v.vi.num_frames

-- The number of frames is an int that is not negative.
abbrev pub HasLength : NodeRef → Type 0
HasLength v = (v.vi.num_frames ≡ pos (frames_of v)) × (frames_of v < 2147483648)

abbrev pub total_of : List NodeRef → ℕ
total_of [] = 0
total_of (v ∷ rest) = frames_of v + total_of rest

pub sum_frames-fits :
    (nodes vs : List NodeRef) (t : ℕ) (s : CreateState SpliceData)
    → All HasLength vs
    → t + total_of vs < 2147483648
    → sum_frames nodes (pos t) vs s ≡ (ok (pos (t + total_of vs)), s)
unfolding sum_frames
sum_frames-fits nodes [] t s h fits = ground arith
sum_frames-fits nodes (v ∷ vs) t s h fits =
    ground (arith, int_add-pos t (frames_of v), sum_frames-fits nodes vs (t + frames_of v) s h.1)

int_add-wraps :
    (a b : ℕ)
    → a < 2147483648
    → b < 2147483648
    → 2147483648 ≤ a + b
    → ltb_ℤ (int_add (pos a) (pos b)) (pos b) ≡ true
unfolding int_add
int_add-wraps a b ha hb h = ground arith

pub sum_frames-overflows :
    (v : NodeRef) (nodes vs : List NodeRef) (t : ℕ) (s : CreateState SpliceData)
    → All HasLength vs
    → t < 2147483648
    → 2147483648 ≤ t + total_of vs
    → 0 < s.nodes
    → (sum_frames (v ∷ nodes) (pos t) vs s).0 ≡ fault
unfolding sum_frames
sum_frames-overflows v nodes [] t s h small over held = absurd (omega arith)
sum_frames-overflows v nodes (w ∷ vs) t s h small over held =
    elim (dec_lt (t + frames_of w) 2147483648) [
      | yes fits ↦ ground (
        arith,
        int_add-pos t (frames_of w),
        sum_frames-overflows v nodes vs (t + frames_of w) s h.1,
      )
      | no wraps ↦ ground (arith, int_add-wraps t (frames_of w))
    ]

pub total_of-empty : (vs : List NodeRef) → length vs ≡ 0 → total_of vs ≡ 0
total_of-empty [] h = refl
total_of-empty (v ∷ vs) h = absurd (omega arith)
