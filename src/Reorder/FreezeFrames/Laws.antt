-- ===== src/Reorder/FreezeFrames/Laws.antt =====
-- What freezeFramesCreate leaves behind, and which frames the result has.
use native.Mathlib.Decide.{dec_lt}
use cat_syn.Prelude.{
  ℕ, suc, ◌+◌, ◌<◌, ◌≡◌, ◌⊎◌, inl, inr, refl, sym, ◌∙◌, ap, subst, Bool, true, false, some, List,
  [], ◌∷◌, ◌||◌, arith, length, count_if, All, get_elem?, if◌then◌else◌,
}
use cat_syn.Prelude.Int.{ℤ, pos, pos_part, ltb_ℤ, int_sub-pos, pos_of_nonneg, ◌<ℤ◌}
use cat_syn.Plugin.Types.{NodeRef, Frame, ints}
use cat_syn.Plugin.VsMap.{
  VsMap, find, prop_get_node, prop_num_elements_of_ints, prop_get_int_of_find,
}
use cat_syn.Plugin.Helper.{int64_to_int_s}
use cat_syn.Plugin.Action.{ok, stop}
use cat_syn.Plugin.Qsort.{Qsort}
use cat_syn.Plugin.Fetch.{FrameSource, run_frame, source-pos, frame, find_input}
use cat_syn.Plugin.Create.{Settles, invoke, start, CreateState, Filter, created}
use cat_syn.Reorder.FreezeFrames.{
  Freeze, FreezeFramesData, covers, freeze_index, frozen, freeze_frames_sort, freeze_of, bad_range,
  read_ranges, overlap, freeze_frames_getframe, freeze_frames_free, freeze_frames_create,
}
use cat_syn.Reorder.FreezeFrames.Ranges.{
  IsApart, IsInside, differs, freeze_index-differs, freeze_index-uncovered, frozen-freeze_index,
  sorted-IsApart, freeze_index-inside, small_range, small_range-IsAll,
  freeze_frames_sort-IsConsistent,
}

-- The ranges that three lists of numbers name.
abbrev pub ranges_of : List ℤ → List ℤ → List ℤ → List Freeze
ranges_of (f ∷ fs) (l ∷ ls) (r ∷ rs) =
    freeze_of (int64_to_int_s f) (int64_to_int_s l) (int64_to_int_s r) ∷ ranges_of fs ls rs
ranges_of _ _ _ = []

abbrev any_bad_range : ℤ → List Freeze → Bool
any_bad_range len [] = false
any_bad_range len (r ∷ rs) = bad_range len r || any_bad_range len rs

length-ranges_of :
    (fs ls rs : List ℤ)
    → length ls ≡ length fs
    → length rs ≡ length fs
    → length (ranges_of fs ls rs) ≡ length fs
length-ranges_of [] ls rs e e' = refl
length-ranges_of (f ∷ fs) (l ∷ ls) (r ∷ rs) e e' = ground (arith, length-ranges_of fs ls rs)
length-ranges_of (f ∷ fs) [] rs e e' = absurd (omega arith)
length-ranges_of (f ∷ fs) (l ∷ ls) [] e e' = absurd (omega arith)

-- A range that fails the test on the source, or whose ends are out of order.
abbrev outside : ℕ → Freeze → Bool
outside len r = bad_range (pos len) r || ltb_ℤ r.last r.first

count_if-outside :
    (len : ℕ) (fs ls rs : List ℤ)
    → any_bad_range (pos len) (ranges_of fs ls rs) ≡ false
    → count_if (outside len) (ranges_of fs ls rs) ≡ 0
unfolding freeze_of
count_if-outside len [] ls rs h = refl
count_if-outside len (f ∷ fs) [] rs h = refl
count_if-outside len (f ∷ fs) (l ∷ ls) [] h = refl
count_if-outside len (f ∷ fs) (l ∷ ls) (r ∷ rs) h = ground (arith, count_if-outside len fs ls rs)

All-IsInside :
    (len : ℕ) (rs : List Freeze) → 0 < len → count_if (outside len) rs ≡ 0 → All (IsInside len) rs
unfolding bad_range
All-IsInside len [] positive h = tt
All-IsInside len (r ∷ rs) positive h =
    let more = All-IsInside len rs positive (ground arith) in (ground arith, more)

count_if-all : (rs : List Freeze) → count_if (λ _. true) rs ≡ length rs
count_if-all [] = refl
count_if-all (r ∷ rs) = omega (arith, count_if-all rs)

module _ (m : VsMap) (v : NodeRef) (num_frames : ℤ) (fs ls rs : List ℤ)
    (first : find "first" m ≡ some (ints fs)) (last : find "last" m ≡ some (ints ls))
    (replacement : find "replacement" m ≡ some (ints rs)) where
  read_ranges_from :
      (i n b : ℕ) (xs ys zs : List ℤ) (s : CreateState FreezeFramesData)
      → ((j : ℕ) → get_elem? fs (i + j) ≡ get_elem? xs j)
      → ((j : ℕ) → get_elem? ls (i + j) ≡ get_elem? ys j)
      → ((j : ℕ) → get_elem? rs (i + j) ≡ get_elem? zs j)
      → length ys ≡ length xs
      → length zs ≡ length xs
      → s.nodes ≡ suc n
      → s.blocks ≡ suc b
      → read_ranges m num_frames v i (length xs) s ≡ (
          if any_bad_range num_frames (ranges_of xs ys zs)
          then (
            stop,
            record s {
              nodes = n;
              blocks = b;
              error = some "FreezeFrames: out of bounds frame number(s)";
            },
          )
          else (ok (ranges_of xs ys zs), s))
  unfolding read_ranges
  read_ranges_from i n b [] ys zs s hx hy hz ey ez hn hb = refl
  read_ranges_from i n b (x ∷ xs) [] zs s hx hy hz ey ez hn hb = absurd (omega arith)
  read_ranges_from i n b (x ∷ xs) (y ∷ ys) [] s hx hy hz ey ez hn hb = absurd (omega arith)
  read_ranges_from i n b (x ∷ xs) (y ∷ ys) (z ∷ zs) s hx hy hz ey ez hn hb = ground (
    arith,
    prop_get_int_of_find m "first" i {xs = fs} {x = x} first
        (ap (get_elem? fs) (omega arith) ∙ hx 0),
    prop_get_int_of_find m "last" i {xs = ls} {x = y} last (ap (get_elem? ls) (omega arith) ∙ hy 0),
    prop_get_int_of_find m "replacement" i {xs = rs} {x = z} replacement
        (ap (get_elem? rs) (omega arith) ∙ hz 0),
    read_ranges_from (suc i) n b xs ys zs s (λ j. rw (shift j) (hx (suc j)))
        (λ j. rw (shift j) (hy (suc j))) (λ j. rw (shift j) (hz (suc j))),
  )
    where
      shift : (j : ℕ) → suc i + j ≡ i + suc j
      shift j = omega arith

  -- The loop fails if one of the ranges is bad, and otherwise returns them all, in order.
  read_ranges_lem :
      length ls ≡ length fs
      → length rs ≡ length fs
      → let s : CreateState FreezeFramesData = record start { nodes = 1; blocks = 1 } in
        read_ranges m num_frames v 0 (length fs) s ≡ (
          if any_bad_range num_frames (ranges_of fs ls rs)
          then (stop, record start { error = some "FreezeFrames: out of bounds frame number(s)" })
          else (ok (ranges_of fs ls rs), s))
  read_ranges_lem el er =
      read_ranges_from 0 0 0 fs ls rs (record start { nodes = 1; blocks = 1 })
        (λ j. ap (get_elem? fs) (omega arith)) (λ j. ap (get_elem? ls) (omega arith))
        (λ j. ap (get_elem? rs) (omega arith)) el er refl refl

getframe_lem :
    (d : FreezeFramesData) (serve : FrameSource → Frame) (n i : ℕ) (r e : Freeze)
    (rest : List Freeze)
    → d.freeze ≡ r ∷ rest
    → d.num_freeze ≡ pos (suc (length rest))
    → suc (length rest) < 2147483648
    → get_elem? (r ∷ rest) (length rest) ≡ some e
    → frozen (pos n) r e (r ∷ rest) ≡ pos i
    → i < 2147483648
    → run_frame (freeze_frames_getframe d) serve (pos n)
      ≡ frame (serve (record { substrate = d.node.substrate; frame_idx = i })) 0 0
unfolding freeze_frames_getframe find_input
getframe_lem d serve n i r e rest ranges count small at found h =
    ground (arith, int_sub-pos (suc (length rest)) 1, source-pos d.node i)

get_elem?-last :
    (r : Freeze) (rest : List Freeze) → (e : Freeze) × (get_elem? (r ∷ rest) (length rest) ≡ some e)
get_elem?-last r [] = (r, refl)
get_elem?-last r (q ∷ rest) = get_elem?-last q rest

-- A frame of a filter whose ranges lie apart, and what is delivered for it.
sorted_delivers :
    (d : FreezeFramesData) (len n : ℕ) (rs : List Freeze)
    → len < 2147483648
    → n < len
    → 0 < length rs
    → length rs < 2147483648
    → d.freeze ≡ rs
    → d.num_freeze ≡ pos (length rs)
    → All (IsInside len) rs
    → IsApart rs
    → (i : ℕ) × (i < len)
      × (freeze_index (pos n) rs ≡ pos i)
      × ((serve : FrameSource → Frame)
          → run_frame (freeze_frames_getframe d) serve (pos n)
            ≡ frame (serve (record { substrate = d.node.substrate; frame_idx = i })) 0 0)
sorted_delivers d len n [] small within positive few ranges count inside apart =
    absurd (omega arith)
sorted_delivers d len n (r ∷ rest) small within positive few ranges count inside apart =
    let x = freeze_index (pos n) (r ∷ rest) in
    let bounds = freeze_index-inside len n (r ∷ rest) inside within in
    let e : x ≡ pos (pos_part x) = pos_of_nonneg x bounds.0 in
    let (end, at) = get_elem?-last r rest in
    let below : pos_part x < len = omega (arith, subst (λ w. w <ℤ pos len) e bounds.1) in
    (
      pos_part x,
      below,
      e,
      λ serve.
          getframe_lem d serve n (pos_part x) r end rest ranges count few at
            (frozen-freeze_index (pos n) r rest apart at ∙ e) (omega arith),
    )

pos_injective : {a b : ℕ} → pos a ≡ pos b → a ≡ b
pos_injective e = ap pos_part e

module _ (qsort : Qsort freeze_frames_sort) (m : VsMap) (v : NodeRef) (fs ls rs : List ℤ)
    (clip : (prop_get_node m "clip" 0).0 ≡ some v) (first : find "first" m ≡ some (ints fs))
    (last : find "last" m ≡ some (ints ls))
    (replacement : find "replacement" m ≡ some (ints rs)) where
  -- Given a clip and the three lists of numbers, freezeFramesCreate never crashes, and on every path
  -- it gives back what it holds or leaves it to freezeFramesFree.
  pub freeze_frames_create-Settles :
      Settles freeze_frames_free (invoke (freeze_frames_create qsort m))
  unfolding freeze_frames_create freeze_frames_free
  freeze_frames_create-Settles = ground (
    arith,
    prop_num_elements_of_ints m "first" first,
    prop_num_elements_of_ints m "last" last,
    prop_num_elements_of_ints m "replacement" replacement,
    read_ranges_lem m v v.vi.num_frames fs ls rs first last replacement,
  )

  -- What a filter that freezeFramesCreate makes went through.
  record IsFreeze (f : Filter FreezeFramesData) : Type 0 where
    node : f.instance_data.node ≡ v
    freeze : f.instance_data.freeze ≡ qsort.sort (ranges_of fs ls rs)
    count : f.instance_data.num_freeze ≡ pos (length fs)
    frames : f.vi ≡ v.vi
    lasts : length ls ≡ length fs
    replacements : length rs ≡ length fs
    inside : any_bad_range v.vi.num_frames (ranges_of fs ls rs) ≡ false
    apart : overlap (qsort.sort (ranges_of fs ls rs)) ≡ false

  create-IsFreeze :
      {f : Filter FreezeFramesData} {k b : ℕ}
      → invoke (freeze_frames_create qsort m) ≡ created f k b
      → IsFreeze f
  unfolding freeze_frames_create
  create-IsFreeze made = ground (
    arith,
    prop_num_elements_of_ints m "first" first,
    prop_num_elements_of_ints m "last" last,
    prop_num_elements_of_ints m "replacement" replacement,
    read_ranges_lem m v v.vi.num_frames fs ls rs first last replacement,
  )

  -- A filter made for a source of `len` frames, with at least one range: its clip is as long as the
  -- source, and frame n of it is a frame i of the source that it has. Every given range that n is in
  -- has the replacement i, and if n is in none of them, i is n.
  pub freeze_frames_delivers :
      (len n : ℕ) {f : Filter FreezeFramesData} {k b : ℕ}
      → v.vi.num_frames ≡ pos len
      → len < 2147483648
      → n < len
      → 0 < length fs
      → length fs < 2147483648
      → invoke (freeze_frames_create qsort m) ≡ created f k b
      → (f.vi ≡ v.vi)
        × (i : ℕ) × (i < len)
        × (count_if (differs (pos n) (pos i)) (ranges_of fs ls rs) ≡ 0)
        × ((0 < count_if (covers (pos n)) (ranges_of fs ls rs)) ⊎ (i ≡ n))
        × ((serve : FrameSource → Frame)
            → run_frame (freeze_frames_getframe f.instance_data) serve (pos n)
              ≡ frame (serve (record { substrate = v.substrate; frame_idx = i })) 0 0)
  freeze_frames_delivers len n {f} frames small within positive few made =
      let d = create-IsFreeze made in
      let given = ranges_of fs ls rs in
      let sorted = qsort.sort given in
      let size : length sorted ≡ length fs =
        sym (count_if-all sorted)
        ∙ qsort.same (λ _. true) given
        ∙ count_if-all given
        ∙ length-ranges_of fs ls rs d.lasts d.replacements in
      let clean : count_if (outside len) given ≡ 0 =
        count_if-outside len fs ls rs (rw (← frames) d.inside) in
      let inside = All-IsInside len sorted (omega arith) (qsort.same (outside len) given ∙ clean) in
      let apart =
        sorted-IsApart len sorted small inside
          (qsort.ordered small_range given freeze_frames_sort-IsConsistent
            (small_range-IsAll len given small (All-IsInside len given (omega arith) clean)))
          d.apart in
      let (i, below, found, delivered) =
        sorted_delivers f.instance_data len n sorted small within (rw size positive) (rw size few)
          d.freeze (d.count ∙ ap pos (sym size)) inside apart in
      (
        d.frames,
        i,
        below,
        sym (qsort.same (differs (pos n) (pos i)) given)
            ∙ rw (← found) (freeze_index-differs (pos n) sorted apart),
        elim (dec_lt 0 (count_if (covers (pos n)) given)) [
          | yes p ↦ inl p
          | no p ↦ inr (
              pos_injective (
                sym found
                ∙ freeze_index-uncovered (pos n) sorted
                    (qsort.same (covers (pos n)) given ∙ omega arith)))
        ],
        λ serve. rw (ap (λ w. w.substrate) (sym d.node)) (delivered serve),
      )
