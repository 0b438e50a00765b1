-- ===== src/Reorder/Trim/Laws.antt =====
-- What trimCreate accepts, and which source frame each frame of the trimmed clip is.
use cat_syn.Prelude.{
  ℕ, ◌+◌, ◌-◌, ◌≤◌, ◌<◌, ◌≡◌, ◌∙◌, Bool, ◌&&◌, some, arith, ◌==◌, true, false, if◌then◌else◌,
}
use cat_syn.Prelude.Int.{
  ℤ, pos, pos_part, int_add, int_sub-pos, int_add-pos, int_sub, ◌+ℤ◌, ◌≤ℤ◌, ◌<ℤ◌, int_max, IsInt,
  pos_of_nonneg, ltb_ℤ, negsuc,
}
use cat_syn.Plugin.Types.{NodeRef, Frame}
use cat_syn.Plugin.VsMap.{VsMap, prop_get_int, prop_get_node}
use cat_syn.Plugin.Helper.{int64_to_int_s-pos, int64_to_int_s-IsInt, int_arg, is_given}
use cat_syn.Plugin.Fetch.{FrameSource, run_frame, source-pos, frame, find_input}
use cat_syn.Plugin.Create.{Settles, invoke, Filter, created, bypass, nf_no_cache}
use cat_syn.Reorder.Trim.{TrimData, trim_getframe, trim_create, trim_free, trim_beyond, trim_length}

-- Given a clip, a call of trimCreate never crashes; it holds no node reference and no memory unless
-- it made a filter, and then the free function of that filter releases all that is held.
pub trim_create-Settles :
    (in_map : VsMap) {v : NodeRef}
    → (prop_get_node in_map "clip" 0).0 ≡ some v
    → Settles trim_free (invoke (trim_create in_map))
unfolding trim_create trim_free
trim_create-Settles in_map h = ground arith

trim_getframe_lem :
    (d : TrimData) (serve : FrameSource → Frame) (n first : ℕ)
    → d.first ≡ pos first
    → first + n < 2147483648
    → run_frame (trim_getframe d) serve (pos n)
      ≡ frame (serve (record { substrate = d.node.substrate; frame_idx = first + n })) 0 0
unfolding trim_getframe find_input
trim_getframe_lem d serve n first e h =
    ground (arith, int_add-pos n first, source-pos d.node (n + first))

-- What a filter that trimCreate makes went through.
record IsTrim (in_map : VsMap) (v : NodeRef) (f : Filter TrimData) : Type 0 where
  node : f.instance_data.node ≡ v
  first : f.instance_data.first ≡ int_arg in_map "first"
  nonneg : pos 0 ≤ℤ int_arg in_map "first"
  one_given : (is_given in_map "last" && is_given in_map "length") ≡ false
  ordered :
      (is_given in_map "last" && ltb_ℤ (int_arg in_map "last") (int_arg in_map "first")) ≡ false
  inside :
      trim_beyond
        (is_given in_map "last")
        (is_given in_map "length")
        (int_arg in_map "first")
        (int_arg in_map "last")
        (int_arg in_map "length")
        v.vi.num_frames
      ≡ false
  frames :
      f.vi.num_frames
      ≡ trim_length
          (is_given in_map "last")
          (is_given in_map "length")
          (int_arg in_map "first")
          (int_arg in_map "last")
          (int_arg in_map "length")
          v.vi.num_frames

trim_create-IsTrim :
    (in_map : VsMap) (v : NodeRef) {f : Filter TrimData} {k b : ℕ}
    → (prop_get_node in_map "clip" 0).0 ≡ some v
    → invoke (trim_create in_map) ≡ created f k b
    → IsTrim in_map v f
unfolding trim_create
trim_create-IsTrim in_map v clip made = ground arith

-- The frames that pass the test lie within the source.
trim_length-inside :
    (lastset lengthset : Bool) (first len : ℕ) (last length : ℤ) (n : ℕ)
    → first < 2147483648
    → len < 2147483648
    → (lastset && lengthset) ≡ false
    → IsInt last
    → IsInt length
    → (lastset && ltb_ℤ last (pos first)) ≡ false
    → (lengthset ≡ true → pos first +ℤ length ≤ℤ int_max)
    → trim_beyond lastset lengthset (pos first) last length (pos len) ≡ false
    → pos n <ℤ trim_length lastset lengthset (pos first) last length (pos len)
    → first + n < len
unfolding trim_beyond trim_length int_add int_sub
trim_length-inside true true first len last length n = ground arith
trim_length-inside true false first len (pos last) length n = ground arith
trim_length-inside true false first len (negsuc last) length n = ground arith
trim_length-inside false true first len last (pos length) n = ground arith
trim_length-inside false true first len last (negsuc length) n = ground arith
trim_length-inside false false first len last length n = ground arith

wrapped :
    (a l len : ℕ)
    → a < 2147483648
    → l < 2147483648
    → 2147483648 ≤ a + l
    → ltb_ℤ (pos len) (int_add (pos a) (pos l)) ≡ false
unfolding int_add
wrapped a l len ha hl over = ground arith

module _ (in_map : VsMap) (v : NodeRef) (len : ℕ) where
  -- A trimmed clip of a source of `len` frames, with `first + length` within an int where a length
  -- is given: frame n of it is frame `first + n` of the source, which the source has.
  pub trim_selects :
      {f : Filter TrimData} {k b : ℕ} (n : ℕ)
      → (prop_get_node in_map "clip" 0).0 ≡ some v
      → v.vi.num_frames ≡ pos len
      → len < 2147483648
      → (is_given in_map "length" ≡ true
          → int_arg in_map "first" +ℤ int_arg in_map "length" ≤ℤ int_max)
      → invoke (trim_create in_map) ≡ created f k b
      → pos n <ℤ f.vi.num_frames
      → (pos_part (int_arg in_map "first") + n < len)
        × ((serve : FrameSource → Frame)
            → run_frame (trim_getframe f.instance_data) serve (pos n)
              ≡ frame
                  (serve (record {
                    substrate = v.substrate;
                    frame_idx = pos_part (int_arg in_map "first") + n;
                  }))
                  0
                  0)
  unfolding trim_create
  trim_selects {f} n clip frames small no_wrap made within =
      let t = trim_create-IsTrim in_map v clip made in
      let first_pos = pos_of_nonneg (int_arg in_map "first") t.nonneg in
      let inside : pos_part (int_arg in_map "first") + n < len = ground (
        arith,
        trim_length-inside (is_given in_map "last") (is_given in_map "length")
            (pos_part (int_arg in_map "first")) len (int_arg in_map "last")
            (int_arg in_map "length") n,
        no_wrap,
        first_pos,
        int64_to_int_s-IsInt (prop_get_int in_map "first" 0).0,
        int64_to_int_s-IsInt (prop_get_int in_map "last" 0).0,
        int64_to_int_s-IsInt (prop_get_int in_map "length" 0).0,
      ) in
      (
        inside,
        λ serve. ground (
          arith,
          trim_getframe_lem f.instance_data serve n (pos_part (int_arg in_map "first"))
              (t.first ∙ first_pos) (omega arith),
          t.node,
        ),
      )

  -- With a first and a last frame within a source of `len` frames, in order, and no length, trimCreate
  -- passes the clip itself through if that is all of it, and otherwise makes a filter of the frames
  -- from the first to the last, both included.
  pub trim_create_accepts :
      (a e b : ℕ)
      → (prop_get_node in_map "clip" 0).0 ≡ some v
      → v.vi.num_frames ≡ pos len
      → len < 2147483648
      → prop_get_int in_map "first" 0 ≡ (pos a, e)
      → prop_get_int in_map "last" 0 ≡ (pos b, 0)
      → is_given in_map "length" ≡ false
      → a ≤ b
      → b < len
      → invoke (trim_create in_map) ≡ (
          if b + 1 - a == len
          then bypass v 0 0
          else created
              (record {
                name = "Trim";
                vi = record (v.vi) { num_frames = pos (b + 1 - a) };
                flags = nf_no_cache;
                instance_data = record {
                  node = v;
                  vi = v.vi;
                  first = pos a;
                  last = pos b;
                  length = int_arg in_map "length";
                  trimlen = pos (b + 1 - a);
                };
              })
              1
              1)
  unfolding trim_create trim_beyond trim_length
  trim_create_accepts a e b clip frames small hf hl hn le lt =
      ground
        (arith, int64_to_int_s-pos a, int64_to_int_s-pos b, int_sub-pos b a, int_add-pos (b - a) 1)

  -- With a first frame within the source, no last frame, and a length whose sum with the first frame
  -- does not fit an int, the sum wraps and passes the test: trimCreate makes a clip of that length,
  -- however long the source is, or passes the whole clip through if the length is that of the source.
  pub trim_create_wraps :
      (a e l : ℕ)
      → (prop_get_node in_map "clip" 0).0 ≡ some v
      → v.vi.num_frames ≡ pos len
      → len < 2147483648
      → prop_get_int in_map "first" 0 ≡ (pos a, e)
      → is_given in_map "last" ≡ false
      → prop_get_int in_map "length" 0 ≡ (pos l, 0)
      → a < len
      → l < 2147483648
      → 2147483648 ≤ a + l
      → invoke (trim_create in_map) ≡ (
          if l == len
          then bypass v 0 0
          else created
              (record {
                name = "Trim";
                vi = record (v.vi) { num_frames = pos l };
                flags = nf_no_cache;
                instance_data = record {
                  node = v;
                  vi = v.vi;
                  first = pos a;
                  last = int_arg in_map "last";
                  length = pos l;
                  trimlen = pos l;
                };
              })
              1
              1)
  unfolding trim_create trim_beyond trim_length
  trim_create_wraps a e l clip frames small hf hn hl lt fits over =
      let wraps : ltb_ℤ (pos len) (int_add (pos a) (pos l)) ≡ false =
        wrapped a l len (omega arith) fits over in
      ground (arith, int64_to_int_s-pos a, int64_to_int_s-pos l)
