-- ===== src/Simple/Fields.antt =====
-- SeparateFields and DoubleWeave, of VapStd/simplefilters.c.
pub mod Laws
use cat_syn.Prelude.{
  ℕ, zero, suc, ◌+◌, ◌%◌, ◌^◌, Bool, true, false, not, ◌&&◌, ◌||◌, Option, none, some, List, [],
  ◌∷◌, String, drop, ltb, ◌==◌, if◌then◌else◌,
}
use cat_syn.Prelude.Int.{
  ℤ, pos, negsuc, pos_part, ltb_ℤ, eqb_ℤ, int_add, int_mul, int_div, int_mod, int_max,
}
use cat_syn.Plugin.Types.{Format, VideoInfo, NodeRef, Frame, ar_initial, ar_all_frames_ready}
use cat_syn.Plugin.VsMap.{VsMap, prop_get_int, prop_set_int, prop_delete_key}
use cat_syn.Plugin.Picture.{
  Plane, bind, slice, bitblt, each_plane, get_read_ptr, get_frame_width, get_frame_height,
  new_video_frame,
}
use cat_syn.Plugin.Helper.{int64_to_int_s, is_constant_format, single_clip_free}
use cat_syn.Plugin.Rational.{muldiv_rational}
use cat_syn.Plugin.Action.{when, branch, need, pure, return_early, ◌>>=◌, ◌>>◌}
use cat_syn.Plugin.Fetch.{
  Fetch, GetFrame, request_frame_filter, get_frame_filter, new_frame, free_frame, set_filter_error,
  no_frame, return_frame, to_size_t,
}
use cat_syn.Plugin.Create.{Create, ret_error, get_node, free_node, malloc, create_filter}
use cat_syn.Reorder.Duration.{scale_duration}

-- A field order: whether the top field comes first, where that is known; -1 stands for none.
pub record SeparateFieldsData : Type 0 where
  pub node : NodeRef
  pub vi : VideoInfo
  pub tff : Option Bool
  pub modify_duration : Bool

pub separate_fields_init : SeparateFieldsData → VideoInfo
separate_fields_init d = d.vi

-- `n & 1`
unfoldable pub low_bit : ℤ → Bool
low_bit (pos n) = (n % 2) == 1
low_bit (negsuc n) = (n % 2) == 0

-- `effectiveTFF`: the frame's own order, or the argument.
unfoldable pub effective_tff : Option Bool → VsMap → Option Bool
effective_tff tff props =
    let field_based = int64_to_int_s (prop_get_int props "_FieldBased" 0).0 in
    if eqb_ℤ field_based (pos 1)
    then some false
    else if eqb_ℤ field_based (pos 2)
    then some true
    else tff

abbrev pub xor : Bool → Bool → Bool
xor true b = not b
xor false b = b

-- The loop body over the planes: every other row, from the first or the second one on.
unfoldable pub field_plane : Bool → Frame → Frame → ℕ → Option Plane
field_plane top src dst p = bind (get_read_ptr src p) λ rows.
    bitblt 2 0 (to_size_t (get_frame_width dst p)) (to_size_t (get_frame_height dst p))
      (if top then rows else drop 1 rows)

abbrev pub bit : Bool → ℤ
bit true = pos 1
bit false = pos 0

-- The rest of separateFieldsGetframe, once the field order is known.
pub separate_copy : SeparateFieldsData → Format → Bool → Frame → Fetch (Unit {0}) (Option Frame)
unfolding scale_duration
separate_copy d format top src = do
  let dst = new_video_frame format d.vi.width d.vi.height src []
  planes ← need (each_plane (field_plane top src dst) 0 format.num_planes)
  new_frame dst
  free_frame src
  let field = record dst {
    planes = planes;
    props = prop_delete_key (prop_set_int dst.props "_Field" (bit top)) "_FieldBased";
  }
  branch d.modify_duration (do scaled ← scale_duration (pos 1) (pos 2) field; return_frame scaled)
      (return_frame field)

pub separate_fields_getframe : SeparateFieldsData → GetFrame (Unit {0})
unfolding separate_copy
separate_fields_getframe d n ar_initial = do
  request_frame_filter (int_div n (pos 2)) d.node
  no_frame
separate_fields_getframe d n ar_all_frames_ready = do
  src ← get_frame_filter (int_div n (pos 2)) d.node
  elim (effective_tff d.tff src.props) [
    | none ↦ do set_filter_error "SeparateFields: no field order provided"; free_frame src; no_frame
    | some tff ↦ do format ← need d.vi.format; separate_copy d format (xor (low_bit n) tff) src
  ]
separate_fields_getframe d n _ = no_frame

-- `!!propGetInt(in, key, 0, &err)`, and the default where there is no value.
unfoldable pub flag_arg : {A : Type 0} → (Bool → A) → A → VsMap → String → A
flag_arg given default in_map key =
    let (v, err) = prop_get_int in_map key 0 in
    if err == 0 then given (not (eqb_ℤ v (pos 0))) else default

unfoldable pub doubled_rate : Bool → VideoInfo → Option (ℤ × ℤ)
doubled_rate modify vi =
    if modify
    then muldiv_rational vi.fps_num vi.fps_den (pos 2) (pos 1)
    else some (vi.fps_num, vi.fps_den)

pub separate_fields_create : VsMap → Create SeparateFieldsData (Unit {0})
unfolding separate_fields_init
separate_fields_create in_map = do
  let tff = flag_arg some none in_map "tff"
  let modify_duration = flag_arg (λ b. b) true in_map "modify_duration"
  node ← get_node in_map "clip" 0
  let vi = node.vi
  when (not (is_constant_format vi))
      do free_node node; ret_error "SeparateFields: clip must have constant format and dimensions"
  format ← need vi.format
  when (not (eqb_ℤ (int_mod vi.height (pos (2 ^ (format.sub_sampling_h + 1)))) (pos 0))) (do
    free_node node
    ret_error "SeparateFields: clip height must be mod 2 in the smallest subsampled plane")
  when (ltb_ℤ (int_div int_max (pos 2)) vi.num_frames)
      do free_node node; ret_error "SeparateFields: resulting clip is too long"
  (fps_num, fps_den) ← need (doubled_rate modify_duration vi)
  malloc
  create_filter "SeparateFields" separate_fields_init 0 (record {
    node = node;
    vi = record vi {
      num_frames = int_mul vi.num_frames (pos 2);
      height = int_div vi.height (pos 2);
      fps_num = fps_num;
      fps_den = fps_den;
    };
    tff = tff;
    modify_duration = modify_duration;
  })

-- `singleClipFree`
pub separate_fields_free : SeparateFieldsData → Create SeparateFieldsData (Unit {0})
separate_fields_free d = single_clip_free d.node
