-- ===== src/Reorder/SelectEvery/Laws.antt =====
-- What selectEveryCreate leaves behind, and which source frame each output frame is.
use native.Mathlib.Nat.{mul-le-mul_right}
use cat_syn.Prelude.{
  ℕ, ◌+◌, ◌*◌, ◌/◌, ◌%◌, ◌≤◌, ◌<◌, ◌≡◌, refl, Bool, true, false, some, List, arith, length, map,
  get_elem?, get_elem?-map, ◌==◌, not, Bool-cases, inl, inr, if◌then◌else◌,
}
use cat_syn.Prelude.Int.{
  ℤ, pos, pos_part, pos_of_nonneg, eqb_ℤ, int_div, int_mod, int_mul-pos, int_add-pos, int64_mul-pos,
  int64_mul, leb_ℤ, ◌<ℤ◌,
}
use cat_syn.Plugin.Types.{VideoInfo, NodeRef, Frame, ints}
use cat_syn.Plugin.VsMap.{
  VsMap, find, prop_get_int, prop_get_node, prop_num_elements, prop_num_elements_of_ints,
}
use cat_syn.Plugin.Helper.{int64_to_int_s, int64_to_int_s-IsInt}
use cat_syn.Plugin.Rational.{muldiv_rational-total, traps-nonneg}
use cat_syn.Plugin.Clips.Laws.{read_ints_lem}
use cat_syn.Plugin.Fetch.{FrameSource, run_frame, source-pos, frame, find_input}
use cat_syn.Plugin.Create.{Settles, invoke, start}
use cat_syn.Reorder.SelectEvery.{
  SelectEveryData, select_every_getframe, select_every_free, select_every_create, selected_rate,
  select_every_frames, bad_offset, fail_offset,
}
use cat_syn.Reorder.SelectEvery.Frames.{IsSorted, quotas, selected_inside, select_every_frames_lem}

-- Without duration changes, frame n of the result is the source frame at offset number `n % k` of
-- cycle `n / k`, k being the number of offsets, where its number fits an int.
pub select_every_selects :
    (d : SelectEveryData) (serve : FrameSource → Frame) (c n : ℕ) (os : List ℕ) {o : ℕ}
    → d.cycle ≡ pos c
    → d.num ≡ pos (length os)
    → d.offsets ≡ map pos os
    → get_elem? os (n % length os) ≡ some o
    → n / length os * c + o < 2147483648
    → d.modify_duration ≡ false
    → run_frame (select_every_getframe d) serve (pos n)
      ≡ frame
          (serve (record { substrate = d.node.substrate; frame_idx = n / length os * c + o }))
          0
          0
unfolding select_every_getframe int_div int_mod find_input
select_every_selects d serve c n os {o} cyc num offs at small keep = ground (
  arith,
  get_elem?-map pos os (n % length os) at,
  int_mul-pos (n / length os) c,
  int_add-pos (n / length os * c) o,
  source-pos d.node (n / length os * c + o),
)

-- Where the length of the result is the one that selectEveryCreate gives it for a source of `len`
-- frames, one or more, the sum of the quotas that make up that length fits an int, the offsets are sorted, the one at n is within the cycle, and
-- durations are kept, frame n of the result is a frame that the source has.
pub select_every_inside :
    (d : SelectEveryData) (serve : FrameSource → Frame) (len c n : ℕ) (os : List ℕ) {o : ℕ}
    → d.cycle ≡ pos c
    → d.num ≡ pos (length os)
    → d.offsets ≡ map pos os
    → d.modify_duration ≡ false
    → d.vi.num_frames ≡ select_every_frames (pos len) d.cycle d.num d.offsets
    → 0 < len
    → len < 2147483648
    → quotas len c os < 2147483648
    → IsSorted os
    → get_elem? os (n % length os) ≡ some o
    → o < c
    → pos n <ℤ d.vi.num_frames
    → (i : ℕ) × (i < len)
      × (run_frame (select_every_getframe d) serve (pos n)
          ≡ frame (serve (record { substrate = d.node.substrate; frame_idx = i })) 0 0)
select_every_inside d serve len c n os {o} cyc num offs keep frames some_frames small fits sorted at
      within below =
    let total = select_every_frames_lem len c os some_frames fits in
    let inside = selected_inside len c os n sorted within at (ground (arith, total)) in
    (
      n / length os * c + o,
      inside,
      select_every_selects d serve c n os cyc num offs at (omega arith) keep,
    )

product_bounds :
    (den c : ℕ)
    → 0 < den
    → den ≤ 4294967296
    → 0 < c
    → c < 2147483648
    → (0 < den * c) × (den * c < 9223372036854775808)
product_bounds den c hd hd' hc hc' = (grind arith, omega (arith, mul-le-mul_right c hd', hc'))

selected_rate-total :
    (b : Bool) (vi : VideoInfo) (num : ℤ) (c den : ℕ)
    → vi.fps_den ≡ pos den
    → den ≤ 4294967296
    → 0 < c
    → c < 2147483648
    → (r : ℤ × ℤ) × (selected_rate b vi num (pos c) ≡ some r)
unfolding selected_rate
selected_rate-total true vi num c den e small hc hc' =
    muldiv_rational-total vi.fps_num vi.fps_den num (pos c) (omega arith) (λ p. ground (
      arith,
      int64_mul-pos den c,
      product_bounds den c,
      traps-nonneg (int64_mul vi.fps_num num) (pos (den * c)),
    ))
selected_rate-total false vi num c den e small hc hc' = ((vi.fps_num, vi.fps_den), refl)

module _ (m : VsMap) (v : NodeRef) (cycle : ℤ) (given : List ℤ)
    (clip : (prop_get_node m "clip" 0).0 ≡ some v) (cycles : prop_get_int m "cycle" 0 ≡ (cycle, 0))
    (offsets : find "offsets" m ≡ some (ints given)) where
  -- Given its arguments, with a clip whose rate has a denominator that fits 32 bits, selectEveryCreate
  -- never crashes, and on every path it gives back what it holds or leaves it to selectEveryFree.
  pub select_every_create-Settles :
      (den : ℕ)
      → v.vi.fps_den ≡ pos den
      → den ≤ 4294967296
      → Settles select_every_free (invoke (select_every_create m))
  unfolding select_every_create select_every_free
  select_every_create-Settles den rate small = elim (Bool-cases (leb_ℤ c (pos 1))) [
    | inl invalid ↦ ground arith
    | inr valid ↦
        let fits = int64_to_int_s-IsInt cycle in
        let e : c ≡ pos (pos_part c) = pos_of_nonneg c (ground arith) in
        let (r, rated) =
          selected_rate-total modify v.vi num (pos_part c) den rate small (ground arith)
            (ground (arith, fits, e)) in
        ground (
          arith,
          prop_num_elements_of_ints m "offsets" offsets,
          read_ints_lem {D = SelectEveryData} m "offsets" given (bad_offset c) fail_offset offsets
              (record start { blocks = 1 })
              (record start { error = some "SelectEvery: invalid offset specified" }) refl,
          e,
          rated,
        )
  ]
    where
      c : ℤ
      c = int64_to_int_s cycle

      num : ℤ
      num = prop_num_elements m "offsets"

      modify : Bool
      modify =
          if (prop_get_int m "modify_duration" 0).1 == 0
          then not (eqb_ℤ (prop_get_int m "modify_duration" 0).0 (pos 0))
          else true
