-- ===== src/Simple/Flip/Mirror.antt =====
-- Frames that are mirror images of one another.
use cat_syn.Prelude.{ℕ, ◌-◌, ◌<◌, ◌≡◌, refl, ◌∙◌, sym, subst, Bool, true, false, arith}
use cat_syn.Plugin.Types.{Format, Frame}
use cat_syn.Plugin.Picture.{plane_width, plane_height}
use cat_syn.Plugin.Picture.Frames.{IsFrame, sample_at, planes_ext}
use cat_syn.Simple.Fields.{xor}

-- Where place i of n comes from.
abbrev pub reflect : Bool → ℕ → ℕ → ℕ
reflect true n i = n - 1 - i
reflect false n i = i

reflect-lt : (b : Bool) (n i : ℕ) → i < n → reflect b n i < n
reflect-lt true n i h = omega arith
reflect-lt false n i h = h

reflect_twice : (a b : Bool) (n i : ℕ) → i < n → reflect a n (reflect b n i) ≡ reflect (xor a b) n i
reflect_twice true true n i h = omega arith
reflect_twice true false n i h = refl
reflect_twice false b n i h = refl

-- `dst` is `src` with the rows, the columns or both in reverse order.
pub record IsMirror (vertical horizontal : Bool) (src dst : Frame) : Type 0 where
  pub frame : IsFrame dst
  pub format : dst.format ≡ src.format
  pub width : dst.width ≡ src.width
  pub height : dst.height ≡ src.height
  pub props : dst.props ≡ src.props
  pub samples :
      (p i j : ℕ)
      → p < src.format.num_planes
      → i < plane_height src p
      → j < plane_width src p
      → sample_at dst p i j
        ≡ sample_at src p
            (reflect vertical (plane_height src p) i)
            (reflect horizontal (plane_width src p) j)

pub IsMirror-self : (f : Frame) → IsFrame f → IsMirror false false f f
IsMirror-self f t = record {
  frame = t;
  format = refl;
  width = refl;
  height = refl;
  props = refl;
  samples = λ p i j hp hi hj. refl;
}

-- The mirror image of a mirror image.
pub IsMirror-trans :
    (v h v' h' : Bool) (f g k : Frame)
    → IsMirror v h f g
    → IsMirror v' h' g k
    → IsMirror (xor v v') (xor h h') f k
IsMirror-trans v h v' h' f g k a b = record {
  frame = b.frame;
  format = b.format ∙ a.format;
  width = b.width ∙ a.width;
  height = b.height ∙ a.height;
  props = b.props ∙ a.props;
  samples = λ p i j hp hi hj.
      let ph : plane_height g p ≡ plane_height f p = cc (a.format, a.height) in
      let pw : plane_width g p ≡ plane_width f p = cc (a.format, a.width) in
      let hp' : p < g.format.num_planes =
        subst (λ (m : Format). p < m.num_planes) (sym a.format) hp in
      b.samples p i j hp' (rw ph hi) (rw pw hj)
      ∙ rw (ph, pw)
          (a.samples p (reflect v' (plane_height f p) i) (reflect h' (plane_width f p) j) hp
              (reflect-lt v' (plane_height f p) i hi) (reflect-lt h' (plane_width f p) j hj)
            ∙ rw
                (
                  reflect_twice v v' (plane_height f p) i hi,
                  reflect_twice h h' (plane_width f p) j hj,
                )
                refl);
}

-- There is one mirror image of each kind.
pub IsMirror-unique : (v h : Bool) (f g k : Frame) → IsMirror v h f g → IsMirror v h f k → g ≡ k
IsMirror-unique v h f g k a b =
    let planes : g.planes ≡ k.planes =
      planes_ext g k a.frame b.frame (a.format ∙ sym b.format) (a.width ∙ sym b.width)
        (a.height ∙ sym b.height)
        λ p i j hp hi hj.
          let ph : plane_height g p ≡ plane_height f p = cc (a.format, a.height) in
          let pw : plane_width g p ≡ plane_width f p = cc (a.format, a.width) in
          let hp' : p < f.format.num_planes =
            subst (λ (m : Format). p < m.num_planes) a.format hp in
          a.samples p i j hp' (rw (← ph) hi) (rw (← pw) hj)
          ∙ sym (b.samples p i j hp' (rw (← ph) hi) (rw (← pw) hj)) in
    cc (planes, a.format, a.width, a.height, a.props, b.format, b.width, b.height, b.props)
