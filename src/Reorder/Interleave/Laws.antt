-- ===== src/Reorder/Interleave/Laws.antt =====
-- What interleaveCreate leaves behind, and which frame of which clip each output frame is.
use Prim.Native.Nat.{◌∣◌}
use native.Mathlib.Nat.{div-le_self}
use cat_syn.Prelude.{
  ℕ, ◌*◌, ◌/◌, ◌%◌, ◌<◌, ◌≡◌, refl, Bool, true, false, some, List, ◌∷◌, String, arith, length,
  get_elem?, ◌==◌, not, if◌then◌else◌,
}
use cat_syn.Prelude.Int.{ℤ, pos, IsInt64, eqb_ℤ, int_div, int_mod, int64_mul, int64_mul-one, ◌≤ℤ◌}
use cat_syn.Plugin.Types.{VideoInfo, NodeRef, Frame, nodes}
use cat_syn.Plugin.VsMap.{
  VsMap, find, prop_get_int, prop_set_int, prop_get_node_of_find, prop_num_elements_of_find,
}
use cat_syn.Plugin.Rational.{muldiv_rational-total, traps-nonneg, muldiv_rational_lem}
use cat_syn.Plugin.Clips.Laws.{get_clips_lem, free_nodes_lem}
use cat_syn.Plugin.Fetch.{FrameSource, run_frame, source-pos, frame, find_input}
use cat_syn.Plugin.Create.{Settles, invoke, start}
use cat_syn.Reorder.Shared.Laws.{find_common_vi-IsInt64, find_common_vi-nonneg}
use cat_syn.Reorder.Interleave.{
  InterleaveData, interleave_getframe, interleave_free, interleave_create, interleave_clips,
  scaled_rate,
}

scaled_rate-total :
    (b : Bool) (vi : VideoInfo) (k : ℕ)
    → IsInt64 vi.fps_den
    → pos 0 ≤ℤ vi.fps_den
    → (r : ℤ × ℤ) × (scaled_rate b vi (pos k) ≡ some r)
unfolding scaled_rate
scaled_rate-total true vi k h positive =
    muldiv_rational-total vi.fps_num vi.fps_den (pos k) (pos 1) (omega arith) (λ p.
      rw (int64_mul-one vi.fps_den h) (
        p,
        ground (arith, h, positive),
        traps-nonneg (int64_mul vi.fps_num (pos k)) vi.fps_den positive,
      ))
scaled_rate-total false vi k h positive = ((vi.fps_num, vi.fps_den), refl)

module _ (m : VsMap) (v : NodeRef) (vs : List NodeRef)
    (found : find "clips" m ≡ some (nodes (v ∷ vs))) (wide : IsInt64 v.vi.fps_den)
    (positive : pos 0 ≤ℤ v.vi.fps_den) where
  clips-Settles :
      (mismatch extend modify_duration : Bool)
      → Settles interleave_free
          (invoke (interleave_clips m mismatch extend modify_duration (pos (length (v ∷ vs)))))
  unfolding interleave_clips interleave_free
  clips-Settles mismatch extend modify_duration =
      let k = length (v ∷ vs) in
      let (c, common, c_wide) = find_common_vi-IsInt64 v vs wide in
      let (r, rate) =
        scaled_rate-total modify_duration c.vi k c_wide
          (find_common_vi-nonneg v vs positive common) in
      ground (
        arith,
        get_clips_lem {D = InterleaveData} m "clips" (v ∷ vs) found (record start { blocks = 1 }),
        common,
        rate,
        free_nodes_lem {D = InterleaveData} (v ∷ vs) (record start { nodes = k; blocks = 1 }) 0,
        free_nodes_lem {D = InterleaveData} (v ∷ vs) (record start { nodes = k; blocks = 2 }) 0,
      )

  -- Given one or more clips, the first with a 64-bit rate whose denominator is not negative,
  -- interleaveCreate never crashes, nor does
  -- its loop for the lowest terms run on; on every path the node references, the node array and the
  -- instance data are given back, or are left to interleaveFree, which gives them all back.
  pub interleave_create-Settles : Settles interleave_free (invoke (interleave_create m))
  unfolding interleave_create interleave_free
  interleave_create-Settles = ground (
    arith,
    prop_num_elements_of_find m "clips" found,
    prop_get_node_of_find m "clips" 0 found,
    clips-Settles (flag "mismatch") (flag "extend")
        (if (prop_get_int m "modify_duration" 0).1 == 0 then flag "modify_duration" else true),
  )
    where
      flag : String → Bool
      flag key = not (eqb_ℤ (prop_get_int m key 0).0 (pos 0))

-- Without duration changes, frame n of the interleaved clip is frame `n / k` of clip `n % k` of k.
pub interleave_selects :
    (d : InterleaveData) (serve : FrameSource → Frame) (k n : ℕ) {v : NodeRef}
    → d.numclips ≡ pos k
    → n < 2147483648
    → get_elem? d.node (n % k) ≡ some v
    → d.modify_duration ≡ false
    → run_frame (interleave_getframe d) serve (pos n)
      ≡ frame (serve (record { substrate = v.substrate; frame_idx = n / k })) 0 0
unfolding interleave_getframe int_div int_mod find_input
interleave_selects d serve k n {v} clips small at keep =
    ground (arith, source-pos v (n / k), div-le_self n k)

-- With duration changes, and k clips, frame n of the interleaved clip is frame `n / k` of clip `n
-- % k` with its duration `num / den` divided by k, in lowest terms, and with all else as it was;
-- nothing is leaked. The frame has to have a duration whose denominator is positive, with parts
-- that fit 64 bits after the product with k.
pub interleave_durations :
    (d : InterleaveData) (serve : FrameSource → Frame) (k n num den : ℕ) {v : NodeRef}
    → d.numclips ≡ pos k
    → 0 < k
    → n < 2147483648
    → get_elem? d.node (n % k) ≡ some v
    → d.modify_duration ≡ true
    → let src = serve (record { substrate = v.substrate; frame_idx = n / k }) in
      prop_get_int src.props "_DurationNum" 0 ≡ (pos num, 0)
      → prop_get_int src.props "_DurationDen" 0 ≡ (pos den, 0)
      → 0 < den
      → num < 9223372036854775808
      → den * k < 9223372036854775808
      → (p : ℕ) × (q : ℕ) × (p * (den * k) ≡ q * num)
        × ((c : ℕ) → c ∣ p → c ∣ q → c ≡ 1)
        × (run_frame (interleave_getframe d) serve (pos n)
            ≡ frame
                (record src {
                  props =
                      prop_set_int
                        (prop_set_int src.props "_DurationNum" (pos p))
                        "_DurationDen"
                        (pos q);
                })
                0
                0)
unfolding interleave_getframe int_div int_mod find_input
interleave_durations d serve k n num den {v} clips hk small at change hn hd hden bn bd =
    let (p, q, e, cross, coprime) = muldiv_rational_lem num den 1 k hden hk (omega arith) bd in
    (p, q, omega (arith, cross), coprime, ground (arith, e, source-pos v (n / k), div-le_self n k))
