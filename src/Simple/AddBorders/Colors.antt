-- ===== src/Simple/AddBorders/Colors.antt =====
-- What addBordersCreate does with colours that it does not accept.
use cat_syn.Prelude.{ℕ, ◌<◌, ◌≡◌, true, false, ◌&&◌, Option, none, some, arith, ◌==◌, if◌then◌else◌}
use cat_syn.Prelude.Int.{pos, ltb_ℤ, eqb_ℤ}
use cat_syn.Plugin.Types.{Format, NodeRef, cm_compat}
use cat_syn.Plugin.VsMap.{VsMap, prop_get_node, prop_num_elements}
use cat_syn.Plugin.Helper.{int_arg, is_compat_format}
use cat_syn.Plugin.Create.{invoke, failed}
use cat_syn.Simple.AddBorders.{add_borders_create, add_borders_verify, border_create, read_colors}

abbrev pub components : Format → ℕ
components fi = if fi.color_family == cm_compat then 3 else fi.num_planes

-- Borders that addBordersCreate accepts, on a clip of one format.
pub record IsAccepted (in_map : VsMap) (v : NodeRef) (fi : Format) : Type 0 where
  pub clip : (prop_get_node in_map "clip" 0).0 ≡ some v
  pub some_border :
      ((eqb_ℤ (int_arg in_map "left") (pos 0) && eqb_ℤ (int_arg in_map "right") (pos 0))
        && eqb_ℤ (int_arg in_map "top") (pos 0)
        && eqb_ℤ (int_arg in_map "bottom") (pos 0))
      ≡ false
  pub left : ltb_ℤ (int_arg in_map "left") (pos 0) ≡ false
  pub right : ltb_ℤ (int_arg in_map "right") (pos 0) ≡ false
  pub top : ltb_ℤ (int_arg in_map "top") (pos 0) ≡ false
  pub bottom : ltb_ℤ (int_arg in_map "bottom") (pos 0) ≡ false
  pub format : v.vi.format ≡ some fi
  pub no_compat : is_compat_format v.vi ≡ false
  pub fits :
      add_borders_verify
        (int_arg in_map "left")
        (int_arg in_map "right")
        (int_arg in_map "top")
        (int_arg in_map "bottom")
        (some fi)
      ≡ none

-- Where the borders are accepted, a colour that is out of range and a wrong number of colours are
-- reported, and the reference to the clip is never released.
pub add_borders_create_leaks :
    (pixel : ℕ → Option ℕ) (in_map : VsMap) (v : NodeRef) (fi : Format) (k : ℕ)
    → IsAccepted in_map v fi
    → prop_num_elements in_map "color" ≡ pos k
    → 0 < k
    → ((k == components fi) ≡ true
        → read_colors pixel 0 (components fi) ≡ none
        → invoke (add_borders_create pixel in_map)
          ≡ failed "AddBorders: color value out of range" 1 0)
      × ((k == components fi) ≡ false
          → invoke (add_borders_create pixel in_map)
            ≡ failed "AddBorders: invalid number of color values specified" 1 0)
unfolding add_borders_create border_create
add_borders_create_leaks pixel in_map v fi k a e p =
    (λ same none_read. ground arith, λ other. ground arith)
