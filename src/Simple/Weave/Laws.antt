-- ===== src/Simple/Weave/Laws.antt =====
-- DoubleWeave after SeparateFields.
use cat_syn.Prelude.{
  ℕ, ◌+◌, ◌*◌, ◌/◌, ◌^◌, ◌<◌, ◌≡◌, ◌∙◌, sym, ap, subst, inl, inr, Bool, true, false, some, arith,
  get_elem?,
}
use cat_syn.Prelude.Int.{pos, wrap32}
use cat_syn.Plugin.Types.{Format, Frame}
use cat_syn.Plugin.Picture.{
  Plane, plane_ssw, plane_ssh, plane_width, plane_height, get_read_ptr, get_frame_width,
  get_frame_height,
}
use cat_syn.Plugin.Picture.Planes.{IsPlane, sample}
use cat_syn.Plugin.Picture.Frames.{
  IsFrame, IsPainted, IsDrawn, painted, sample_at, sample_at_lem, size_lem,
}
use cat_syn.Plugin.Fetch.{to_size_t}
use cat_syn.Simple.Fields.Laws.{IsTall, first_row, double_div, field}
use cat_syn.Simple.Weave.{weave_plane}
use cat_syn.Simple.Weave.Rows.{weave_rows-IsWoven, parity}

-- One of the two fields of a frame.
pub record IsField (w h : ℕ) (src : Frame) (top : Bool) (f : Frame) : Type 0 where
  pub frame : IsFrame f
  pub format : f.format ≡ src.format
  pub width : f.width ≡ w
  pub height : f.height ≡ h
  pub samples :
      (p i j : ℕ)
      → p < src.format.num_planes
      → i < h / 2 ^ plane_ssh src.format p
      → j < w / 2 ^ plane_ssw src.format p
      → sample_at f p i j ≡ field src top p i j

-- A plane of it.
record IsFieldPlane (w h : ℕ) (src : Frame) (top : Bool) (f : Frame) (p : ℕ) : Type 0 where
  plane : Plane
  held : get_elem? f.planes p ≡ some plane
  sized : IsPlane (w / 2 ^ plane_ssw src.format p) (h / 2 ^ plane_ssh src.format p) plane
  samples :
      (i j : ℕ)
      → i < h / 2 ^ plane_ssh src.format p
      → j < w / 2 ^ plane_ssw src.format p
      → sample plane i j ≡ field src top p i j

IsField-IsFieldPlane :
    (w h : ℕ) (src : Frame) (top : Bool) (f : Frame) (p : ℕ)
    → IsField w h src top f
    → p < src.format.num_planes
    → IsFieldPlane w h src top f p
IsField-IsFieldPlane w h src top f p t lt =
    let lt' : p < f.format.num_planes =
      subst (λ (k : Format). p < k.num_planes) (sym t.format) lt in
    let (q, e, s) = t.frame.each p lt' in
    let ew : plane_width f p ≡ w / 2 ^ plane_ssw src.format p = cc (t.format, t.width) in
    let eh : plane_height f p ≡ h / 2 ^ plane_ssh src.format p = cc (t.format, t.height) in
    record {
      plane = q;
      held = e;
      sized = rw (← ew, ← eh) s;
      samples = λ i j hi hj. sym (sample_at_lem f p i j e) ∙ t.samples p i j lt hi hj;
    }

weave-IsDrawn :
    (w h : ℕ) (src top btn dst : Frame) (p : ℕ)
    → IsTall w h src
    → IsField w h src true top
    → IsField w h src false btn
    → dst.format ≡ src.format
    → dst.width ≡ w
    → p < src.format.num_planes
    → IsDrawn
        (w / 2 ^ plane_ssw src.format p)
        (h / 2 ^ plane_ssh src.format p * 2)
        (weave_plane top btn dst p)
        (sample_at src p)
unfolding weave_plane get_read_ptr get_frame_width get_frame_height
weave-IsDrawn w h src top btn dst p t ft fb ef ew lt =
    let a = IsField-IsFieldPlane w h src true top p ft lt in
    let b = IsField-IsFieldPlane w h src false btn p fb lt in
    let ssw = plane_ssw src.format p in
    let ssh = plane_ssh src.format p in
    let rows = weave_rows-IsWoven (w / 2 ^ ssw) (h / 2 ^ ssh) a.plane b.plane a.sized b.sized in
    let wide : to_size_t (wrap32 (pos (w / 2 ^ ssw))) ≡ w / 2 ^ ssw =
      size_lem w ssw (omega (arith, t.frame.width_fits, t.width)) in
    let tall : to_size_t (wrap32 (pos (h / 2 ^ ssh))) ≡ h / 2 ^ ssh =
      size_lem h ssh (omega (arith, t.frame.height_fits, t.height)) in
    record {
      plane = rows.plane;
      written = rw (a.held, b.held, ef, ew, ft.format, ft.height, wide, tall) rows.written;
      sized = rows.sized;
      same = λ i j hi hj. elim (parity i) [
        | inl e ↦
            let r : first_row true + i / 2 * 2 ≡ i = omega arith in
            subst (λ k. sample rows.plane k j ≡ sample_at src p i j) (sym e)
              (rows.tops (i / 2) j (omega arith) hj
                ∙ a.samples (i / 2) j (omega arith) hj
                ∙ ap (λ k. sample_at src p k j) r)
        | inr e ↦
            let r : first_row false + i / 2 * 2 ≡ i = omega arith in
            subst (λ k. sample rows.plane k j ≡ sample_at src p i j) (sym e)
              (rows.btns (i / 2) j (omega arith) hj
                ∙ b.samples (i / 2) j (omega arith) hj
                ∙ ap (λ k. sample_at src p k j) r)
      ];
    }

pub weave-IsPainted :
    (w h : ℕ) (src top btn dst : Frame)
    → IsTall w h src
    → IsField w h src true top
    → IsField w h src false btn
    → dst.format ≡ src.format
    → dst.width ≡ w
    → IsPainted src.format w (h * 2) (weave_plane top btn dst) (sample_at src)
weave-IsPainted w h src top btn dst t ft fb ef ew =
    painted src.format w (h * 2) _ (sample_at src) (omega (arith, t.frame.width_pos, t.width))
      (omega (arith, t.frame.width_fits, t.width)) (omega (arith, t.frame.height_pos, t.height))
      (omega (arith, t.frame.height_fits, t.height))
      λ p lt.
        rw (double_div h (plane_ssh src.format p) (t.whole p))
          (weave-IsDrawn w h src top btn dst p t ft fb ef ew lt)
