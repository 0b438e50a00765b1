-- ===== src/Plugin/Fetch.antt =====
-- How a frame is made: `VSFilter::get_frame_data` runs the filter's getFrame with arInitial, which
-- requests input frames; when they are there, `process_frame` runs it again with arAllFramesReady.
-- `F` is what the filter keeps in `*frameData` between the two calls.
use cat_syn.Prelude.{
  ◌<◌, ◌≡◌, ap, arith, ℕ, zero, suc, ◌-◌, ◌%◌, Bool, true, false, Option, none, some, List, [], ◌∷◌,
  ◌++◌, String, map, if◌then◌else◌, ◌==◌, ◌&&◌,
}
use cat_syn.Prelude.Int.{ℤ, pos, negsuc}
use cat_syn.Plugin.Action.{Action, Flow, ok, stop, fault, release}
use cat_syn.Plugin.Types.{ActivationReason, ar_initial, ar_all_frames_ready, NodeRef, Frame}

-- `catsyn::FrameSource`
pub record FrameSource : Type 0 where
  pub substrate : ℕ
  pub frame_idx : ℕ

-- `static_cast<size_t>`
abbrev pub to_size_t : ℤ → ℕ
to_size_t (pos n) = n % 18446744073709551616
to_size_t (negsuc n) = 18446744073709551615 - n % 18446744073709551616

abbrev pub source : NodeRef → ℤ → FrameSource
source v n = record { substrate = v.substrate; frame_idx = to_size_t n }

-- `VSFrameContext`, with the frame references and memory blocks that the call holds.
pub record Context (F : Type 0) : Type 0 where
  pub requests : List FrameSource
  pub inputs : List (FrameSource × Frame)
  pub frame_data : Option F
  pub error : Option String
  pub frames : ℕ
  pub blocks : ℕ

abbrev pub Fetch : Type 0 → Type 0 → Type 0
Fetch F A = Action (Context F) A

-- The look-up in `input_map`, at the first input from that source.
unfoldable pub find_input : FrameSource → List (FrameSource × Frame) → Option Frame
find_input k [] = none
find_input k ((j, f) ∷ rest) =
    if (j.substrate == k.substrate) && (j.frame_idx == k.frame_idx)
    then some f
    else find_input k rest

module _ {F : Type 0} where
  -- `return 0`
  abbrev pub no_frame : Fetch F (Option Frame)
  no_frame c = (ok none, c)

  abbrev pub return_frame : Frame → Fetch F (Option Frame)
  return_frame f c = (ok (some f), c)

  abbrev pub request_frame_filter : ℤ → NodeRef → Fetch F (Unit {0})
  request_frame_filter n v c = (ok tt, record c { requests = c.requests ++ (source v n ∷ []) })

  abbrev pub get_frame_filter : ℤ → NodeRef → Fetch F Frame
  get_frame_filter n v c = elim (find_input (source v n) c.inputs) [
    | none ↦ (fault, c)
    | some f ↦ (ok f, record c { frames = suc c.frames })
  ]

  abbrev pub copy_frame : Frame → Fetch F Frame
  copy_frame f c = (ok f, record c { frames = suc c.frames })

  abbrev pub free_frame : Frame → Fetch F (Unit {0})
  free_frame f c = release c.frames (λ k. record c { frames = k }) c

  -- The reference to a frame that `newVideoFrame` has made.
  abbrev pub new_frame : Frame → Fetch F Frame
  new_frame f c = (ok f, record c { frames = suc c.frames })

  -- `setFilterError` keeps the pointer that it is given; the message stands for what it points at in the
  -- end, which the source leaves unsettled where the filter passes an array of its own stack frame.
  abbrev pub set_filter_error : String → Fetch F (Unit {0})
  set_filter_error message c = (ok tt, record c { error = some message })

  abbrev pub malloc : Fetch F (Unit {0})
  malloc c = (ok tt, record c { blocks = suc c.blocks })

  abbrev pub free : Fetch F (Unit {0})
  free c = release c.blocks (λ k. record c { blocks = k }) c

  abbrev pub set_frame_data : F → Fetch F (Unit {0})
  set_frame_data d c = (ok tt, record c { frame_data = some d })

  abbrev pub get_frame_data : Fetch F F
  get_frame_data c = elim c.frame_data [ none ↦ (fault, c) | some d ↦ (ok d, c) ]

abbrev pub GetFrame : Type 0 → Type 0
GetFrame F = ℤ → ActivationReason → Fetch F (Option Frame)

-- The two calls for one output frame. A filter that returns a frame on arInitial is a source filter,
-- which gets that call again in place of the second.
pub data Delivery : Type 0 where
  frame : Frame → ℕ → ℕ → Delivery
  failed : String → Delivery
  crashed : Delivery

-- The frame is handed over: the reference to it is given up, so there has to be one.
abbrev pub hand_over : Frame → ℕ → ℕ → Delivery
hand_over f zero blocks = crashed
hand_over f (suc k) blocks = frame f k blocks

abbrev pub deliver : {F : Type 0} → Flow (Option Frame) × Context F → Delivery
deliver (ok r, c) = elim c.error [
  | some message ↦ failed message
  | none ↦ elim r [ none ↦ crashed | some f ↦ hand_over f c.frames c.blocks ]
]
deliver (stop, c) = crashed
deliver (fault, c) = crashed

abbrev pub answer : (FrameSource → Frame) → FrameSource → FrameSource × Frame
answer serve k = (k, serve k)

-- `VSFilter::process_frame`: the core hands over the frame for each request.
abbrev pub process_frame :
    {F : Type 0} → GetFrame F → (FrameSource → Frame) → ℤ → Bool → Context F → Delivery
process_frame get_frame serve n is_source c = deliver (
    get_frame n (if is_source then ar_initial else ar_all_frames_ready)
      (record c { inputs = map (answer serve) c.requests }))

abbrev pub is_some : {A : Type 0} → Option A → Bool
is_some none = false
is_some (some a) = true

-- The rest of `VSFilter::get_frame_data` after its call, and `process_frame`. The function is
-- `noexcept`, so an error that the filter reports on arInitial ends the program.
abbrev pub continue_frame :
    {F : Type 0}
    → GetFrame F
    → (FrameSource → Frame)
    → ℤ
    → Flow (Option Frame) × Context F
    → Delivery
continue_frame get_frame serve n (ok r, c) = elim c.error [
  | some message ↦ crashed
  | none ↦ process_frame get_frame serve n (is_some r) c
]
continue_frame get_frame serve n (stop, c) = crashed
continue_frame get_frame serve n (fault, c) = crashed

abbrev pub fresh : {F : Type 0} → Context F
fresh = record {
  requests = [];
  inputs = [];
  frame_data = none;
  error = none;
  frames = 0;
  blocks = 0;
}

-- `VSFilter::get_frame_data`, and then `process_frame`. `serve` is the core, which runs the nodes
-- that the requests name.
abbrev pub run_frame : {F : Type 0} → GetFrame F → (FrameSource → Frame) → ℤ → Delivery
run_frame get_frame serve n = continue_frame get_frame serve n (get_frame n ar_initial fresh)

pub source-pos :
    (v : NodeRef) (n : ℕ)
    → n < 2147483648
    → source v (pos n) ≡ record { substrate = v.substrate; frame_idx = n }
source-pos v n h = ground arith

-- The answer to the first request is found.
pub find_input_self :
    (k : FrameSource) (f : Frame) (rest : List (FrameSource × Frame))
    → find_input k ((k, f) ∷ rest) ≡ some f
unfolding find_input
find_input_self k f rest = ground arith

-- And that to the second, where it is for another frame of the clip.
pub find_input_second :
    (k j : FrameSource) (f g : Frame) (rest : List (FrameSource × Frame))
    → (k.frame_idx == j.frame_idx) ≡ false
    → find_input j ((k, f) ∷ (j, g) ∷ rest) ≡ some g
unfolding find_input
find_input_second k j f g rest e = ground arith

abbrev delivered : Frame → Delivery → Frame
delivered fallback (frame f held blocks) = f
delivered fallback (failed message) = fallback
delivered fallback crashed = fallback

-- The frames of a filter's clip, for a filter that has it as its input.
pub filtered : {F : Type 0} → GetFrame F → (FrameSource → Frame) → Frame → FrameSource → Frame
filtered get_frame serve fallback k =
    delivered fallback (run_frame get_frame serve (pos k.frame_idx))

pub filtered_lem :
    {F : Type 0} (get_frame : GetFrame F) (serve : FrameSource → Frame) (fallback : Frame)
    (k : FrameSource) {f : Frame} {held blocks : ℕ}
    → run_frame get_frame serve (pos k.frame_idx) ≡ frame f held blocks
    → filtered get_frame serve fallback k ≡ f
unfolding filtered
filtered_lem get_frame serve fallback k e = ap (delivered fallback) e
