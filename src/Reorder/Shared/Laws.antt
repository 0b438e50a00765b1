-- ===== src/Reorder/Shared/Laws.antt =====
-- What findCommonVi finds out about several clips.
use cat_syn.Prelude.{
  ◌≡◌, ◌⊎◌, ℕ, suc, get_elem?, refl, ◌∙◌, ap, if◌then◌else◌, Bool, true, false, Option, none, some,
  List, [], ◌∷◌, ◌&&◌, arith, Bool-cases, inl, inr, All,
}
use cat_syn.Prelude.Int.{ℤ, pos, eqb_ℤ, ltb_ℤ, ◌≤ℤ◌, IsInt64}
use cat_syn.Plugin.Types.{VideoInfo, NodeRef, eq_format}
use cat_syn.Reorder.Shared.{Common, common_step, common_loop, find_common_vi}

-- The clip has the dimensions, the format and the frame rate of `vi`.
abbrev pub agrees : VideoInfo → VideoInfo → Bool
agrees vi w =
    eqb_ℤ vi.width w.width
    && eqb_ℤ vi.height w.height
    && eq_format vi.format w.format
    && eqb_ℤ vi.fps_num w.fps_num
    && eqb_ℤ vi.fps_den w.fps_den

abbrev pub all_agree : VideoInfo → List NodeRef → Bool
all_agree vi [] = true
all_agree vi (v ∷ rest) = agrees vi v.vi && all_agree vi rest

abbrev pub is_none : {A : Type 0} → Option A → Bool
is_none none = true
is_none (some a) = false

and_true : (a b : Bool) → (a && b) ≡ true → (a ≡ true) × (b ≡ true)
and_true a b h = ground arith

common_step-mismatch :
    (vi : VideoInfo) (c : Common)
    → is_none (common_step true vi c).mismatch ≡ (is_none c.mismatch && agrees c.vi vi)
unfolding common_step
common_step-mismatch vi c = ground arith

-- A round in which the clip agrees leaves all but the length alone.
common_step-agrees :
    (vi w : VideoInfo) (c : Common)
    → agrees c.vi vi ≡ true
    → agrees (common_step true vi c).vi w ≡ agrees c.vi w
unfolding common_step
common_step-agrees vi w c h = ground arith

all_agree-step :
    (vi : VideoInfo) (c : Common) (vs : List NodeRef)
    → agrees c.vi vi ≡ true
    → all_agree (common_step true vi c).vi vs ≡ all_agree c.vi vs
all_agree-step vi c [] h = refl
all_agree-step vi c (v ∷ vs) h = rw (common_step-agrees vi v.vi c h, all_agree-step vi c vs h)

common_loop-mismatch :
    (c : Common) (vs : List NodeRef)
    → is_none (common_loop true c vs).mismatch ≡ (is_none c.mismatch && all_agree c.vi vs)
unfolding common_loop
common_loop-mismatch c [] = ground arith
common_loop-mismatch c (v ∷ vs) = elim (Bool-cases (agrees c.vi v.vi)) [
  | inl same ↦ ground (
    arith,
    common_loop-mismatch (common_step true v.vi c) vs,
    common_step-mismatch v.vi c,
    all_agree-step v.vi c vs same,
  )
  | inr other ↦
      ground (arith, common_loop-mismatch (common_step true v.vi c) vs, common_step-mismatch v.vi c)
]

-- The longest of the lengths, begun at `acc`.
abbrev pub longest_length : ℤ → List NodeRef → ℤ
longest_length acc [] = acc
longest_length acc (v ∷ rest) =
    longest_length (if ltb_ℤ acc v.vi.num_frames then v.vi.num_frames else acc) rest

common_step-length :
    (ignorelength : Bool) (vi : VideoInfo) (c : Common)
    → (common_step ignorelength vi c).vi.num_frames
      ≡ (if ltb_ℤ c.vi.num_frames vi.num_frames then vi.num_frames else c.vi.num_frames)
unfolding common_step
common_step-length ignorelength vi c = ground arith

common_loop-length :
    (ignorelength : Bool) (c : Common) (vs : List NodeRef)
    → (common_loop ignorelength c vs).vi.num_frames ≡ longest_length c.vi.num_frames vs
unfolding common_loop
common_loop-length ignorelength c [] = refl
common_loop-length ignorelength c (v ∷ vs) =
    common_loop-length ignorelength (common_step ignorelength v.vi c) vs
    ∙ ap (λ n. longest_length n vs) (common_step-length ignorelength v.vi c)

longest_length-ge : (acc : ℤ) (vs : List NodeRef) → acc ≤ℤ longest_length acc vs
longest_length-ge acc [] = omega arith
longest_length-ge acc (v ∷ vs) =
    ground
      (arith, longest_length-ge (if ltb_ℤ acc v.vi.num_frames then v.vi.num_frames else acc) vs)

-- No clip is longer than the longest length.
pub longest_length-max :
    (acc : ℤ) (vs : List NodeRef) → All (λ v. v.vi.num_frames ≤ℤ longest_length acc vs) vs
longest_length-max acc [] = tt
longest_length-max acc (v ∷ vs) = (
  ground (arith, longest_length-ge (if ltb_ℤ acc v.vi.num_frames then v.vi.num_frames else acc) vs),
  longest_length-max (if ltb_ℤ acc v.vi.num_frames then v.vi.num_frames else acc) vs,
)

-- And it is the length of one of them.
longest_length-elem :
    (acc : ℤ) (vs : List NodeRef)
    → (longest_length acc vs ≡ acc)
      ⊎ ((i : ℕ) × (w : NodeRef) × (get_elem? vs i ≡ some w)
          × (longest_length acc vs ≡ w.vi.num_frames))
longest_length-elem acc [] = inl refl
longest_length-elem acc (v ∷ vs) =
    later acc v vs
      (longest_length-elem (if ltb_ℤ acc v.vi.num_frames then v.vi.num_frames else acc) vs)
  where
    later :
        (acc : ℤ) (v : NodeRef) (vs : List NodeRef)
        → let next = if ltb_ℤ acc v.vi.num_frames then v.vi.num_frames else acc in
          (longest_length next vs ≡ next)
            ⊎ ((i : ℕ) × (w : NodeRef) × (get_elem? vs i ≡ some w)
                × (longest_length next vs ≡ w.vi.num_frames))
          → (longest_length next vs ≡ acc)
            ⊎ ((i : ℕ) × (w : NodeRef) × (get_elem? (v ∷ vs) i ≡ some w)
                × (longest_length next vs ≡ w.vi.num_frames))
    later acc v vs (inr (i, w, e, l)) = inr (suc i, w, e, l)
    later acc v vs (inl l) = elim (Bool-cases (ltb_ℤ acc v.vi.num_frames)) [
      | inl t ↦
          let x : (if ltb_ℤ acc v.vi.num_frames then v.vi.num_frames else acc) ≡ v.vi.num_frames =
            rw t refl in
          inr (0, v, refl, l ∙ x)
      | inr t ↦
          let x : (if ltb_ℤ acc v.vi.num_frames then v.vi.num_frames else acc) ≡ acc = rw t refl in
          inl (l ∙ x)
    ]

-- The same of a clip before them.
longest_length-attained :
    (v : NodeRef) (vs : List NodeRef)
    → (i : ℕ) × (w : NodeRef) × (get_elem? (v ∷ vs) i ≡ some w)
      × (longest_length v.vi.num_frames vs ≡ w.vi.num_frames)
longest_length-attained v vs = elim (longest_length-elem v.vi.num_frames vs) [
  | inl e ↦ (0, v, refl, e)
  | inr (i, w, e, l) ↦ (suc i, w, e, l)
]

agrees_refl : (vi : VideoInfo) → agrees vi vi ≡ true
unfolding eq_format
agrees_refl vi = ground arith

step-agrees :
    (x vi : VideoInfo) (c : Common)
    → agrees c.vi vi ≡ true
    → agrees x c.vi ≡ true
    → agrees x (common_step true vi c).vi ≡ true
unfolding common_step
step-agrees x vi c h k = ground arith

common_loop-agrees :
    (x : VideoInfo) (c : Common) (vs : List NodeRef)
    → all_agree c.vi vs ≡ true
    → agrees x c.vi ≡ true
    → agrees x (common_loop true c vs).vi ≡ true
unfolding common_loop
common_loop-agrees x c [] h k = k
common_loop-agrees x c (v ∷ vs) h k =
    let (same, others) = and_true (agrees c.vi v.vi) (all_agree c.vi vs) h in
    common_loop-agrees x (common_step true v.vi c) vs (all_agree-step v.vi c vs same ∙ others)
      (step-agrees x v.vi c same k)

-- findCommonVi with lengths ignored, as all of its callers call it: it reports no mismatch exactly if
-- every clip has the dimensions, the format and the frame rate of the first, and then its result
-- agrees with the first clip; in any case its length is the greatest, that of one of the clips and
-- no less than that of any.
pub find_common_vi_lem :
    (v : NodeRef) (vs : List NodeRef)
    → (c : Common) × (find_common_vi (v ∷ vs) true ≡ some c)
      × (is_none c.mismatch ≡ all_agree v.vi vs)
      × (all_agree v.vi vs ≡ true → agrees v.vi c.vi ≡ true)
      × ((i : ℕ) × (w : NodeRef) × (get_elem? (v ∷ vs) i ≡ some w)
          × (c.vi.num_frames ≡ w.vi.num_frames))
      × (v.vi.num_frames ≤ℤ c.vi.num_frames)
      × All (λ w. w.vi.num_frames ≤ℤ c.vi.num_frames) vs
unfolding find_common_vi
find_common_vi_lem v vs =
    let c : Common = record { vi = v.vi; mismatch = none } in
    (
      common_loop true c vs,
      refl,
      common_loop-mismatch c vs,
      λ h. common_loop-agrees v.vi c vs h (agrees_refl v.vi),
      rw (common_loop-length true c vs) (longest_length-attained v vs),
      rw (common_loop-length true c vs) (longest_length-ge v.vi.num_frames vs),
      rw (common_loop-length true c vs) (longest_length-max v.vi.num_frames vs),
    )

common_loop-nonneg :
    (ignorelength : Bool) (c : Common) (vs : List NodeRef)
    → pos 0 ≤ℤ c.vi.fps_den
    → pos 0 ≤ℤ (common_loop ignorelength c vs).vi.fps_den
unfolding common_loop common_step
common_loop-nonneg ignorelength c [] h = h
common_loop-nonneg ignorelength c (v ∷ vs) h =
    common_loop-nonneg ignorelength (common_step ignorelength v.vi c) vs (ground arith)

-- A frame rate with a denominator that is not negative stays one.
pub find_common_vi-nonneg :
    (v : NodeRef) (vs : List NodeRef) {c : Common}
    → pos 0 ≤ℤ v.vi.fps_den
    → find_common_vi (v ∷ vs) true ≡ some c
    → pos 0 ≤ℤ c.vi.fps_den
unfolding find_common_vi
find_common_vi-nonneg v vs h e =
    let k = common_loop-nonneg true (record { vi = v.vi; mismatch = none }) vs h in
    ground (arith, e)

common_loop-IsInt64 :
    (ignorelength : Bool) (c : Common) (vs : List NodeRef)
    → IsInt64 c.vi.fps_den
    → IsInt64 (common_loop ignorelength c vs).vi.fps_den
unfolding common_loop common_step
common_loop-IsInt64 ignorelength c [] h = h
common_loop-IsInt64 ignorelength c (v ∷ vs) h =
    common_loop-IsInt64 ignorelength (common_step ignorelength v.vi c) vs (ground arith)

-- The frame rate of the result is as wide as those of the clips.
pub find_common_vi-IsInt64 :
    (v : NodeRef) (vs : List NodeRef)
    → IsInt64 v.vi.fps_den
    → (c : Common) × (find_common_vi (v ∷ vs) true ≡ some c) × IsInt64 c.vi.fps_den
unfolding find_common_vi
find_common_vi-IsInt64 v vs h =
    let c : Common = record { vi = v.vi; mismatch = none } in
    (common_loop true c vs, refl, common_loop-IsInt64 true c vs h)
