-- ===== src/Reorder/DuplicateFrames/Laws.antt =====
-- What duplicateFramesCreate leaves behind, and which frames the result has.
use cat_syn.Prelude.{
  ℕ, ◌+◌, ◌≤◌, ◌<◌, ◌≡◌, refl, ◌∙◌, false, some, List, [], ◌∷◌, arith, length, length-map, map,
  count_if,
}
use cat_syn.Prelude.Int.{ℤ, pos, pos_part, ltb_ℤ, leb_ℤ, int_add, int_add-pos, int_sub-pos}
use cat_syn.Plugin.Types.{NodeRef, Frame, ints}
use cat_syn.Plugin.VsMap.{VsMap, find, prop_get_node, prop_num_elements_of_ints}
use cat_syn.Plugin.Helper.{int64_to_int_s}
use cat_syn.Plugin.Clips.Laws.{read_ints_lem, any_bad}
use cat_syn.Plugin.Qsort.{Qsort}
use cat_syn.Plugin.Fetch.{FrameSource, run_frame, source-pos, frame, find_input}
use cat_syn.Plugin.Create.{Settles, invoke, start, Filter, created}
use cat_syn.Reorder.Shared.{compare_ints}
use cat_syn.Reorder.Sorting.{
  outside, sum_fits, sort-IsFrames, below-sort, up_to-sort, length-frames,
}
use cat_syn.Reorder.DuplicateFrames.{
  DuplicateFramesData, duplicate_frames_getframe, duplicate_frames_free, duplicate_frames_create,
  bad_duplicate, fail_duplicate,
}
use cat_syn.Reorder.DuplicateFrames.Frames.{index, duplicate_index-pos, index_bounds, index-inside}

-- The numbers given for `frames`, as the source reads them.
abbrev pub numbers : List ℤ → List ℤ
numbers given = map int64_to_int_s given

bad_duplicate-outside :
    (len : ℕ) (xs : List ℤ)
    → 0 < len
    → len < 2147483648
    → any_bad (bad_duplicate (pos len)) xs ≡ any_bad (outside len) xs
bad_duplicate-outside len [] positive small = refl
bad_duplicate-outside len (x ∷ xs) positive small =
    ground (arith, int_sub-pos len 1, bad_duplicate-outside len xs positive small)

getframe_lem :
    (d : DuplicateFramesData) (serve : FrameSource → Frame) (n : ℕ) (ys : List ℕ)
    → d.dups ≡ map pos ys
    → n < 2147483648
    → index n ys < 2147483648
    → run_frame (duplicate_frames_getframe d) serve (pos n)
      ≡ frame (serve (record { substrate = d.node.substrate; frame_idx = index n ys })) 0 0
unfolding duplicate_frames_getframe find_input
getframe_lem d serve n ys e h h' =
    ground (arith, duplicate_index-pos n ys, source-pos d.node (index n ys))

module _ (qsort : Qsort compare_ints) (m : VsMap) (v : NodeRef) (given : List ℤ)
    (clip : (prop_get_node m "clip" 0).0 ≡ some v)
    (found : find "frames" m ≡ some (ints given)) where
  -- Given a clip and numbers, duplicateFramesCreate never crashes, and on every path it gives back
  -- what it holds or leaves it to duplicateFramesFree.
  pub duplicate_frames_create-Settles :
      Settles duplicate_frames_free (invoke (duplicate_frames_create qsort m))
  unfolding duplicate_frames_create duplicate_frames_free
  duplicate_frames_create-Settles = ground (
    arith,
    prop_num_elements_of_ints m "frames" found,
    read_ints_lem {D = DuplicateFramesData} m "frames" given (bad_duplicate v.vi.num_frames)
        (fail_duplicate v) found (record start { nodes = 1; blocks = 1 })
        (record start { error = some "DuplicateFrames: out of bounds frame number" }) refl,
  )

  -- What a filter that duplicateFramesCreate makes went through.
  record IsDuplicate (f : Filter DuplicateFramesData) : Type 0 where
    node : f.instance_data.node ≡ v
    dups : f.instance_data.dups ≡ qsort.sort (numbers given)
    frames : f.vi.num_frames ≡ int_add v.vi.num_frames (pos (length given))
    inside : any_bad (bad_duplicate v.vi.num_frames) (numbers given) ≡ false
    fits : ltb_ℤ (int_add v.vi.num_frames (pos (length given))) v.vi.num_frames ≡ false

  create-IsDuplicate :
      {f : Filter DuplicateFramesData} {k b : ℕ}
      → invoke (duplicate_frames_create qsort m) ≡ created f k b
      → IsDuplicate f
  unfolding duplicate_frames_create
  create-IsDuplicate made = ground (
    arith,
    prop_num_elements_of_ints m "frames" found,
    read_ints_lem {D = DuplicateFramesData} m "frames" given (bad_duplicate v.vi.num_frames)
        (fail_duplicate v) found (record start { nodes = 1; blocks = 1 })
        (record start { error = some "DuplicateFrames: out of bounds frame number" }) refl,
  )

  -- A filter made for a source of `len` frames, one or more: its clip is longer by the number of
  -- duplicates, and frame n of it is a frame of the source that it has, with at most n frames of
  -- the clip before that frame and its duplicates, and at least n when its own duplicates are
  -- counted too.
  pub duplicate_frames_delivers :
      (len n : ℕ) {f : Filter DuplicateFramesData} {k b : ℕ}
      → v.vi.num_frames ≡ pos len
      → 0 < len
      → len < 2147483648
      → length given < 2147483648
      → invoke (duplicate_frames_create qsort m) ≡ created f k b
      → n < len + length given
      → (f.vi.num_frames ≡ pos (len + length given))
        × (i : ℕ) × (i < len)
        × (i + count_if (λ x. ltb_ℤ x (pos i)) (numbers given) ≤ n)
        × (n ≤ i + count_if (λ x. leb_ℤ x (pos i)) (numbers given))
        × ((serve : FrameSource → Frame)
            → run_frame (duplicate_frames_getframe f.instance_data) serve (pos n)
              ≡ frame (serve (record { substrate = v.substrate; frame_idx = i })) 0 0)
  duplicate_frames_delivers len n {f} frames positive small small' made within =
      let d = create-IsDuplicate made in
      let ys = map pos_part (qsort.sort (numbers given)) in
      let fits : len + length given < 2147483648 =
        sum_fits len (length given) small small' (ground (arith, d.fits)) in
      let sorted =
        sort-IsFrames qsort (numbers given) len
          (ground (arith, d.inside, bad_duplicate-outside len (numbers given) positive small)) in
      let count : length ys ≡ length given =
        length-frames qsort (numbers given) len ys sorted ∙ length-map int64_to_int_s given in
      let inside = index-inside n len ys sorted.sorted sorted.inside (rw count within) in
      let bounds = index_bounds n ys sorted.sorted in
      (
        ground (arith, d.frames, int_add-pos len (length given)),
        index n ys,
        inside,
        rw (← below-sort qsort (numbers given) (index n ys) len ys sorted) bounds.0,
        rw (← up_to-sort qsort (numbers given) (index n ys) len ys sorted) bounds.1,
        λ serve. ground (
          arith,
          getframe_lem f.instance_data serve n ys (d.dups ∙ sorted.same) (omega arith)
              (omega arith),
          d.node,
        ),
      )
