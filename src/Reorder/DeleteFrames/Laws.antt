-- ===== src/Reorder/DeleteFrames/Laws.antt =====
-- What deleteFramesCreate leaves behind, and which frames the result has.
use cat_syn.Prelude.{
  ℕ, ◌+◌, ◌<◌, ◌≡◌, refl, ◌∙◌, false, some, List, [], ◌∷◌, ◌&&◌, not, arith, length, length-map,
  map,
}
use cat_syn.Prelude.Int.{ℤ, pos, pos_part, eqb_ℤ, int_sub-pos, ◌<ℤ◌}
use cat_syn.Plugin.Types.{NodeRef, Frame, ints}
use cat_syn.Plugin.VsMap.{VsMap, find, prop_get_node, prop_num_elements_of_ints}
use cat_syn.Plugin.Helper.{int64_to_int_s}
use cat_syn.Plugin.Clips.Laws.{read_ints_lem, any_bad}
use cat_syn.Plugin.Qsort.{Qsort}
use cat_syn.Plugin.Fetch.{FrameSource, run_frame, source-pos, frame, find_input}
use cat_syn.Plugin.Create.{Settles, invoke, start, Filter, created}
use cat_syn.Reorder.Shared.{compare_ints}
use cat_syn.Reorder.Sorting.{outside, sort-IsFrames, length-frames}
use cat_syn.Reorder.DeleteFrames.{
  DeleteFramesData, delete_frames_getframe, delete_frames_free, delete_frames_create, bad_delete,
  fail_delete, has_repeat, frames_left,
}
use cat_syn.Reorder.DeleteFrames.Frames.{
  index, delete_index-pos, index_bounds, index-inside, length-fits, below-len,
}
use cat_syn.Reorder.DeleteFrames.Kept.{deleted, kept, kept-below, level-deleted}

-- The numbers given for `frames`, as the source reads them.
abbrev pub numbers : List ℤ → List ℤ
numbers given = map int64_to_int_s given

bad_delete-outside :
    (len : ℕ) (xs : List ℤ) → 0 < len → any_bad (bad_delete (pos len)) xs ≡ any_bad (outside len) xs
bad_delete-outside len [] positive = refl
bad_delete-outside len (x ∷ xs) positive = ground (arith, bad_delete-outside len xs positive)

getframe_lem :
    (d : DeleteFramesData) (serve : FrameSource → Frame) (n : ℕ) (ys : List ℕ)
    → d.delete ≡ map pos ys
    → n + length ys < 2147483648
    → index n ys < 2147483648
    → run_frame (delete_frames_getframe d) serve (pos n)
      ≡ frame (serve (record { substrate = d.node.substrate; frame_idx = index n ys })) 0 0
unfolding delete_frames_getframe find_input
getframe_lem d serve n ys e h h' =
    ground (arith, delete_index-pos n ys, source-pos d.node (index n ys))

module _ (qsort : Qsort compare_ints) (m : VsMap) (v : NodeRef) (given : List ℤ)
    (clip : (prop_get_node m "clip" 0).0 ≡ some v)
    (found : find "frames" m ≡ some (ints given)) where
  -- Given a clip and numbers, deleteFramesCreate never crashes, and on every path it gives back what
  -- it holds or leaves it to deleteFramesFree.
  pub delete_frames_create-Settles :
      Settles delete_frames_free (invoke (delete_frames_create qsort m))
  unfolding delete_frames_create delete_frames_free
  delete_frames_create-Settles = ground (
    arith,
    prop_num_elements_of_ints m "frames" found,
    read_ints_lem {D = DeleteFramesData} m "frames" given (bad_delete v.vi.num_frames)
        (fail_delete v) found (record start { nodes = 1; blocks = 1 })
        (record start { error = some "DeleteFrames: out of bounds frame number" }) refl,
  )

  -- What a filter that deleteFramesCreate makes went through.
  record IsDelete (f : Filter DeleteFramesData) : Type 0 where
    node : f.instance_data.node ≡ v
    delete : f.instance_data.delete ≡ qsort.sort (numbers given)
    frames : f.vi.num_frames ≡ frames_left v.vi.num_frames (pos (length given))
    inside : any_bad (bad_delete v.vi.num_frames) (numbers given) ≡ false
    once : has_repeat (qsort.sort (numbers given)) ≡ false
    some_left :
        (not (eqb_ℤ v.vi.num_frames (pos 0))
          && eqb_ℤ (frames_left v.vi.num_frames (pos (length given))) (pos 0))
        ≡ false

  create-IsDelete :
      {f : Filter DeleteFramesData} {k b : ℕ}
      → invoke (delete_frames_create qsort m) ≡ created f k b
      → IsDelete f
  unfolding delete_frames_create
  create-IsDelete made = ground (
    arith,
    prop_num_elements_of_ints m "frames" found,
    read_ints_lem {D = DeleteFramesData} m "frames" given (bad_delete v.vi.num_frames)
        (fail_delete v) found (record start { nodes = 1; blocks = 1 })
        (record start { error = some "DeleteFrames: out of bounds frame number" }) refl,
  )

  -- A filter made for a source of `len` frames, one or more: its clip has as many frames as the source
  -- has that are not deleted, of which there is one at least, and frame n of it is the frame of the
  -- source that is not deleted and has n frames before it that are not.
  pub delete_frames_delivers :
      (len : ℕ) {f : Filter DeleteFramesData} {k b : ℕ}
      → v.vi.num_frames ≡ pos len
      → 0 < len
      → len < 2147483648
      → invoke (delete_frames_create qsort m) ≡ created f k b
      → (0 < kept len (numbers given))
        × (f.vi.num_frames ≡ pos (kept len (numbers given)))
        × ((n : ℕ)
            → pos n <ℤ f.vi.num_frames
            → (i : ℕ) × (i < len)
              × (kept i (numbers given) ≡ n)
              × (deleted i (numbers given) ≡ false)
              × ((serve : FrameSource → Frame)
                  → run_frame (delete_frames_getframe f.instance_data) serve (pos n)
                    ≡ frame (serve (record { substrate = v.substrate; frame_idx = i })) 0 0))
  unfolding frames_left
  delete_frames_delivers len {f} frames positive small made =
      let d = create-IsDelete made in
      let ys = map pos_part (qsort.sort (numbers given)) in
      let sorted =
        sort-IsFrames qsort (numbers given) len
          (ground (arith, d.inside, bad_delete-outside len (numbers given) positive)) in
      let once : has_repeat (map pos ys) ≡ false = rw (← sorted.same) d.once in
      let count : length ys ≡ length given =
        length-frames qsort (numbers given) len ys sorted ∙ length-map int64_to_int_s given in
      let room = length-fits len ys sorted.sorted sorted.inside once in
      let all = kept-below qsort (numbers given) len ys sorted once in
      let full = below-len len len ys sorted.inside (omega arith) in
      let left : f.vi.num_frames ≡ pos (kept len (numbers given)) =
        ground (arith, d.frames, int_sub-pos len (length given), all len, full, count, room) in
      (
        ground (
          arith,
          d.some_left,
          int_sub-pos len (length given),
          all len,
          full,
          count,
          room,
          frames,
        ),
        left,
        λ n below_end.
            let within : n < kept len (numbers given) = ground (arith, left) in
            let last : n + length ys < len = omega (arith, all len, full) in
            let inside = index-inside n len ys sorted.sorted sorted.inside last in
            let bounds = index_bounds n ys sorted.sorted in
            (
              index n ys,
              inside,
              omega (arith, all (index n ys), bounds.0),
              level-deleted qsort (numbers given) len ys sorted (index n ys) bounds.1,
              λ serve. ground (
                arith,
                getframe_lem f.instance_data serve n ys (d.delete ∙ sorted.same) (omega arith)
                    (omega arith),
                d.node,
              ),
            ),
      )
