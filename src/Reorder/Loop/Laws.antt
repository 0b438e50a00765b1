-- ===== src/Reorder/Loop/Laws.antt =====
-- Loop repeats its clip, and refuses a length that an int does not hold.
use native.Mathlib.Nat.{div-lt_iff_lt-mul, mod-lt}
use cat_syn.Prelude.{zero, suc, ◌==◌, ℕ, ◌*◌, ◌/◌, ◌%◌, ◌<◌, ◌≡◌, some, arith, ltb, if◌then◌else◌}
use cat_syn.Prelude.Int.{pos, int_mul-pos, int_div, int_mod}
use cat_syn.Plugin.Types.{NodeRef, Frame}
use cat_syn.Plugin.VsMap.{VsMap, prop_get_node}
use cat_syn.Plugin.Helper.{int_arg}
use cat_syn.Plugin.Fetch.{FrameSource, run_frame, source-pos, frame, find_input}
use cat_syn.Plugin.Create.{Settles, Outcome, invoke, Filter, created, bypass, failed, nf_no_cache}
use cat_syn.Reorder.Loop.{LoopData, loop_getframe, loop_length, loop_create, loop_free}

-- Given a clip, loopCreate never crashes and leaks nothing.
pub loop_create-Settles :
    (in_map : VsMap) {v : NodeRef}
    → (prop_get_node in_map "clip" 0).0 ≡ some v
    → Settles loop_free (invoke (loop_create in_map))
unfolding loop_create loop_free
loop_create-Settles in_map h = ground arith

-- The overflow test of the source: `x > m / t` exactly if `x * t > m`.
div-lt-eq-lt-mul : (m t x : ℕ) → 0 < t → ltb (m / t) x ≡ ltb m (x * t)
div-lt-eq-lt-mul m t x h = ground (arith, div-lt_iff_lt-mul {k = t} {x = m} {y = x} h)

abbrev looped : NodeRef → ℕ → ℕ → Filter LoopData
looped v len frames = record {
  name = "Loop";
  vi = record (v.vi) { num_frames = pos frames };
  flags = nf_no_cache;
  instance_data = record {
    node = v;
    vi = record (v.vi) { num_frames = pos frames };
    num_frames_in = pos len;
  };
}

-- What Loop makes of a clip of `len` frames: once is the clip itself, 0 times is a clip of the
-- greatest length, and any other number is a clip of `len * times` frames, or an error exactly where
-- that does not fit an int.
abbrev pub loop_outcome : NodeRef → ℕ → ℕ → Outcome LoopData
loop_outcome v len times =
    if times == 1
    then bypass v 0 0
    else if times == 0
    then created (looped v len 2147483647) 1 1
    else if ltb 2147483647 (len * times)
    then failed "Loop: resulting clip is too long" 0 0
    else created (looped v len (len * times)) 1 1

-- For any number of times that is not negative, loopCreate does what `loop_outcome` says: bypass at
-- 1, the greatest length at 0, and otherwise the product or an error if that overflows.
pub loop_create_lem :
    (in_map : VsMap) (v : NodeRef) (len times : ℕ)
    → (prop_get_node in_map "clip" 0).0 ≡ some v
    → v.vi.num_frames ≡ pos len
    → int_arg in_map "times" ≡ pos times
    → invoke (loop_create in_map) ≡ loop_outcome v len times
unfolding loop_create loop_length int_div
loop_create_lem in_map v len zero clip frames ht = rw ht (ground arith)
loop_create_lem in_map v len (suc times) clip frames ht =
    rw ht (ground (arith, div-lt-eq-lt-mul 2147483647 (suc times) len, int_mul-pos len (suc times)))

-- Every frame n of a looped clip, the source having one frame or more, is frame `n % len` of the
-- source, a frame that it has.
pub loop_selects :
    (d : LoopData) (serve : FrameSource → Frame) (len n : ℕ)
    → d.num_frames_in ≡ pos len
    → 0 < len
    → len < 2147483648
    → (n % len < len)
      × (run_frame (loop_getframe d) serve (pos n)
          ≡ frame (serve (record { substrate = d.node.substrate; frame_idx = n % len })) 0 0)
unfolding loop_getframe int_mod find_input
loop_selects d serve len n frames nonempty small =
    (omega arith, ground (arith, source-pos d.node (n % len), mod-lt n nonempty))
