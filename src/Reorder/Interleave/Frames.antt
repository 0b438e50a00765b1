-- ===== src/Reorder/Interleave/Frames.antt =====
-- How long an interleaved clip is: long enough for the last frame of each clip, and no longer.
use native.Mathlib.Nat.{div-lt_iff_lt-mul, div-le_self}
use cat_syn.Prelude.{
  ℕ, zero, suc, ◌+◌, ◌-◌, ◌*◌, ◌/◌, ◌≤◌, ◌<◌, ◌≡◌, ap, ◌∙◌, Bool, false, some, List, [], ◌∷◌, ◌||◌,
  arith, All, length, get_elem?, ltb, max,
}
use cat_syn.Prelude.Int.{
  ℤ, pos, pos_part, ltb_ℤ, int_max, int_add-pos, int_sub-pos, int_mul-pos, int_add, int_sub,
  int_mul, int_div,
}
use cat_syn.Plugin.Types.{NodeRef}
use cat_syn.Plugin.Helper.{vs_max}
use cat_syn.Reorder.Interleave.{longest, interleave_frames}

abbrev pub frames_of : NodeRef → ℕ
frames_of v = pos_part v.vi.num_frames

-- The clip has at least one frame, and their number is an int.
abbrev pub HasFrames : NodeRef → Type 0
HasFrames v = (0 < frames_of v) × (v.vi.num_frames ≡ pos (frames_of v)) × (frames_of v < 2147483648)

-- One more than the place of the last frame of any clip, where frame j of clip i has place
-- `j * k + i`; the first of the clips has number i.
abbrev pub end_of : ℕ → ℕ → List NodeRef → ℕ
end_of k i [] = 0
end_of k i (v ∷ rest) = max ((frames_of v - 1) * k + i + 1) (end_of k (suc i) rest)

-- The overflow test of the source, for clip i.
test-eq-ltb :
    (k i l : ℕ)
    → i < k
    → k < 2147483648
    → 0 < l
    → ltb ((2147483647 - i - 1) / k + 1) l ≡ ltb 2147483647 ((l - 1) * k + i + 1)
test-eq-ltb k i l hi hk hl =
    ground (arith, div-lt_iff_lt-mul {k = k} {x = 2147483647 - i - 1} {y = l - 1} (omega arith))

int_test :
    (k i l : ℕ)
    → i < k
    → k < 2147483648
    → 0 < l
    → ltb_ℤ (int_add (int_div (int_sub (int_sub int_max (pos i)) (pos 1)) (pos k)) (pos 1)) (pos l)
      ≡ ltb 2147483647 ((l - 1) * k + i + 1)
unfolding int_div
int_test k i l hi hk hl = ground (
  arith,
  int_sub-pos 2147483647 i,
  int_sub-pos (2147483647 - i) 1,
  int_add-pos ((2147483647 - i - 1) / k) 1,
  div-le_self (2147483647 - i - 1) k,
  test-eq-ltb k i l,
)

longest-overflow :
    (k i : ℕ) (vs : List NodeRef) (f : ℤ) (o : Bool)
    → i + length vs ≤ k
    → k < 2147483648
    → All HasFrames vs
    → (longest (pos k) i vs (f, o)).1 ≡ (o || ltb 2147483647 (end_of k i vs))
unfolding longest
longest-overflow k i [] f o hi hk h = ground arith
longest-overflow k i (v ∷ vs) f o hi hk h =
    longest-overflow k (suc i) vs _ _ (omega arith) hk h.1
    ∙ rw (h.0.1, int_test k i (frames_of v) (omega arith) hk h.0.0) (ground arith)

int_place :
    (k i l : ℕ) (x : ℤ)
    → x ≡ pos l
    → 0 < l
    → l < 2147483648
    → (l - 1) * k + i + 1 < 2147483648
    → int_add (int_add (int_mul (int_sub x (pos 1)) (pos k)) (pos i)) (pos 1)
      ≡ pos ((l - 1) * k + i + 1)
int_place k i l x e hl hl' fits = ground (
  arith,
  int_sub-pos l 1,
  int_mul-pos (l - 1) k,
  int_add-pos ((l - 1) * k) i,
  int_add-pos ((l - 1) * k + i) 1,
)

int_first_place :
    (k l : ℕ) (x : ℤ)
    → x ≡ pos l
    → 0 < l
    → l < 2147483648
    → (l - 1) * k + 1 < 2147483648
    → int_add (int_mul (int_sub x (pos 1)) (pos k)) (pos 1) ≡ pos ((l - 1) * k + 1)
int_first_place k l x e hl hl' fits =
    ground (arith, int_sub-pos l 1, int_mul-pos (l - 1) k, int_add-pos ((l - 1) * k) 1)

vs_max-pos : (a b : ℕ) → vs_max (pos a) (pos b) ≡ pos (max a b)
unfolding vs_max
vs_max-pos a b = ground arith

longest-frames :
    (k i : ℕ) (vs : List NodeRef) (f : ℕ) (o : Bool)
    → k < 2147483648
    → f < 2147483648
    → All HasFrames vs
    → end_of k i vs < 2147483648
    → (longest (pos k) i vs (pos f, o)).0 ≡ pos (max f (end_of k i vs))
unfolding longest
longest-frames k i [] f o hk hf h fits = ground arith
longest-frames k i (v ∷ vs) f o hk hf h fits =
    rw
      (
        int_place k i (frames_of v) v.vi.num_frames h.0.1 h.0.0 h.0.2 (omega arith),
        vs_max-pos,
        longest,
      )
      (longest-frames k (suc i) vs (max f ((frames_of v - 1) * k + i + 1)) _ hk (omega arith) h.1
          (omega arith)
        ∙ ap pos (omega arith))

-- Without `extend`, for k clips that each have a frame, frame j of clip i being at place `j * k + i`:
-- the overflow flag says exactly whether the number of places up to the last frame of some clip, one
-- more than its place, is greater than the greatest int; where it is not, that number, the greatest of
-- all clips, is the length of the result.
pub interleave_frames_lem :
    (v : NodeRef) (vs : List NodeRef) (frames : ℕ)
    → let k = length (v ∷ vs) in
      k < 2147483648
      → All HasFrames (v ∷ vs)
      → 0 < frames
      → let r = interleave_frames false (pos frames) (v ∷ vs) (pos k) in
        (r.1 ≡ ltb 2147483647 (end_of k 0 (v ∷ vs)))
        × (r.1 ≡ false → r.0 ≡ pos (end_of k 0 (v ∷ vs)))
unfolding interleave_frames
interleave_frames_lem v vs frames hk h hf =
    let k = length (v ∷ vs) in
    let begin = int_add (int_mul (int_sub v.vi.num_frames (pos 1)) (pos k)) (pos 1) in
    let flag = longest-overflow k 0 (v ∷ vs) begin false (omega arith) hk h in
    (
      ground (arith, flag),
      λ fits. ground (
        arith,
        flag,
        fits,
        int_first_place k (frames_of v) v.vi.num_frames,
        longest-frames k 0 (v ∷ vs) ((frames_of v - 1) * k + 1) false,
      ),
    )

-- Each frame of each clip has its place before the end.
pub end_covers :
    (k i : ℕ) (vs : List NodeRef) (m j : ℕ) {w : NodeRef}
    → get_elem? vs m ≡ some w
    → j < frames_of w
    → j * k + (i + m) < end_of k i vs
end_covers k i [] m j e h = cc
end_covers k i (v ∷ vs) zero j e h = grind arith
end_covers k i (v ∷ vs) (suc m) j e h = omega (arith, end_covers k (suc i) vs m j e h)
