-- ===== src/Plugin/Helper.antt =====
-- VapStd/VSHelper.h and VapStd/filtershared.h: saturation, rational numbers, clip helpers.
use cat_syn.Prelude.{
  ℕ, ◌<◌, ◌≡◌, String, Bool, true, false, none, some, arith, if◌then◌else◌, ◌==◌, ◌&&◌,
}
use cat_syn.Prelude.Int.{ℤ, pos, ltb_ℤ, eqb_ℤ, int_max, int_min, IsInt}
use cat_syn.Plugin.Types.{VideoInfo, NodeRef, eq_format, cm_compat}
use cat_syn.Plugin.Action.{◌>>◌}
use cat_syn.Plugin.VsMap.{VsMap, prop_get_int}
use cat_syn.Plugin.Create.{Create, free_node, free}

-- `int64ToIntS`
unfoldable pub int64_to_int_s : ℤ → ℤ
int64_to_int_s i = if ltb_ℤ int_max i then int_max else if ltb_ℤ i int_min then int_min else i

-- `VSMAX`
unfoldable pub vs_max : ℤ → ℤ → ℤ
vs_max a b = if ltb_ℤ b a then a else b

-- `isCompatFormat`
unfoldable pub is_compat_format : VideoInfo → Bool
is_compat_format vi = elim vi.format [ none ↦ false | some f ↦ f.color_family == cm_compat ]

-- `isConstantFormat`
unfoldable pub is_constant_format : VideoInfo → Bool
is_constant_format vi =
    ltb_ℤ (pos 0) vi.height
    && ltb_ℤ (pos 0) vi.width
    && (elim vi.format [ none ↦ false | some f ↦ true ])

-- `isSameFormat`
unfoldable pub is_same_format : VideoInfo → VideoInfo → Bool
unfolding eq_format
is_same_format v w = eqb_ℤ v.height w.height && eqb_ℤ v.width w.width && eq_format v.format w.format

-- An `int` property is an int.
pub int64_to_int_s-IsInt : (i : ℤ) → IsInt (int64_to_int_s i)
unfolding int64_to_int_s
int64_to_int_s-IsInt i = ground arith

-- `singleClipFree`: the node of the instance data, and the data's own block.
abbrev pub single_clip_free : {D : Type 0} → NodeRef → Create D (Unit {0})
single_clip_free node = do free_node node; free

-- An optional int argument: its value, 0 where it is not given, and whether it is given.
abbrev pub int_arg : VsMap → String → ℤ
int_arg m key = int64_to_int_s (prop_get_int m key 0).0

abbrev pub is_given : VsMap → String → Bool
is_given m key = (prop_get_int m key 0).1 == 0

pub int64_to_int_s-pos : (n : ℕ) → n < 2147483648 → int64_to_int_s (pos n) ≡ pos n
unfolding int64_to_int_s
int64_to_int_s-pos n h = ground arith

pub record SingleClipData : Type 0 where
  pub node : NodeRef
  pub vi : VideoInfo

-- `singleClipInit`
unfoldable pub single_clip_init : SingleClipData → VideoInfo
single_clip_init d = d.node.vi
