-- ===== src/Simple/AddBorders/Laws.antt =====
-- What AddBorders delivers.
use cat_syn.Prelude.{
  ℕ, ◌+◌, ◌-◌, ◌*◌, ◌/◌, ◌%◌, ◌^◌, ◌<◌, ◌≡◌, refl, ◌∙◌, ap, Option, none, some, List, ◌++◌, arith,
  length, get_elem?, replicate, length-replicate,
}
use cat_syn.Prelude.Int.{pos, wrap32}
use cat_syn.Plugin.Types.{Format, Frame}
use cat_syn.Plugin.Picture.{
  Plane, bind, plane_ssw, plane_ssh, plane_width, plane_height, get_frame_width, get_frame_height,
  shift_right,
}
use cat_syn.Plugin.Picture.Planes.{IsPlane, sample}
use cat_syn.Plugin.Picture.Frames.{
  IsFrame, IsPainted, IsDrawn, IsDrawn-congr, painted, read-IsDrawn, sample_at, sample_at_lem,
  size_lem,
}
use cat_syn.Plugin.Fetch.{to_size_t}
use cat_syn.Simple.AddBorders.{AddBordersData, fill_value, border_plane}
use cat_syn.Simple.AddBorders.Rows.{
  padded, pad_rows-IsDrawn, get_elem?-padded, length-padded, All-append, All-replicate,
  get_elem?-replicate,
}
use native.Mathlib.Nat.{div-add-mod, add-mul-div_left, one-le-pow}

-- Rows of one value above and below a plane.
rows_padded :
    (c v h t b : ℕ) (middle : Plane)
    → IsPlane v h middle
    → let line = replicate v c in
      (i j : ℕ)
      → i < t + h + b
      → j < v
      → sample (replicate t line ++ (middle ++ replicate b line)) i j
        ≡ padded c t h (λ k. sample middle k j) i
unfolding sample
rows_padded c v h t b middle s i j hi hj = ground (
  arith,
  get_elem?-padded (replicate v c) t b middle i (omega (arith, s.rows)),
  s.rows,
  get_elem?-replicate c v j hj,
)

rows-IsDrawn :
    (c v h t b : ℕ) {o : Option Plane} {F : ℕ → ℕ → Option ℕ}
    → (d : IsDrawn v h o F)
    → let line = replicate v c in
      IsDrawn v
        (t + h + b)
        (some (replicate t line ++ (d.plane ++ replicate b line)))
        (λ i j. padded c t h (λ k. F k j) i)
rows-IsDrawn c v h t b {o} {F} d =
    let line = replicate v c in
    let wide = λ (row : List ℕ). length row ≡ v in
    record {
      plane = replicate t line ++ (d.plane ++ replicate b line);
      written = refl;
      sized = record {
        rows = omega (arith, length-padded line t b d.plane, d.sized.rows);
        columns =
            All-append wide (replicate t line) (d.plane ++ replicate b line)
              (All-replicate wide t line (length-replicate v c))
              (All-append wide d.plane (replicate b line) d.sized.columns
                (All-replicate wide b line (length-replicate v c)));
      };
      same = λ i j hi hj.
          rows_padded c v h t b d.plane d.sized i j hi hj
          ∙ inner c t h i (λ k. sample d.plane k j) (λ k. F k j) (λ k hk. d.same k j hk hj);
    }
  where
    inner :
        (c t h i : ℕ) (F G : ℕ → Option ℕ)
        → ((k : ℕ) → k < h → F k ≡ G k)
        → padded c t h F i ≡ padded c t h G i
    inner c t h i F G same = ground (arith, same (i - t))

pub split_div :
    (w l r s : ℕ)
    → l % 2 ^ s ≡ 0
    → r % 2 ^ s ≡ 0
    → (w + l + r) / 2 ^ s ≡ l / 2 ^ s + w / 2 ^ s + r / 2 ^ s
split_div w l r s el er =
    let whole : w + l + r ≡ w + 2 ^ s * (l / 2 ^ s + r / 2 ^ s) =
      omega (arith, div-add-mod l (2 ^ s), div-add-mod r (2 ^ s)) in
    ap (λ z. z / 2 ^ s) whole
    ∙ add-mul-div_left w (l / 2 ^ s + r / 2 ^ s) (one-le-pow s 2 (omega arith))
    ∙ omega arith

-- The samples of the bordered frame: those of the source, moved, and the fill value around them.
abbrev pub bordered : (ℕ → ℕ) → Frame → ℕ → ℕ → ℕ → ℕ → ℕ → Option ℕ
bordered shade src l t p i j =
    padded (shade p) (t / 2 ^ plane_ssh src.format p) (plane_height src p)
      (λ k.
        padded (shade p) (l / 2 ^ plane_ssw src.format p) (plane_width src p) (sample_at src p k) j)
      i

bind-some :
    {A B : Type 0} (o : Option A) (g : A → Option B) {b : B}
    → bind o g ≡ some b
    → (a : A) × (o ≡ some a) × (g a ≡ some b)
bind-some none g e = cc e
bind-some (some a) g e = (a, refl, e)

pub border-IsPainted :
    (d : AddBordersData) (format : Format) (shade : ℕ → ℕ) (l r t b : ℕ) (src dst : Frame)
    → IsFrame src
    → d.left ≡ pos l
    → d.right ≡ pos r
    → d.top ≡ pos t
    → d.bottom ≡ pos b
    → ((p : ℕ)
        → p < src.format.num_planes
        → bind (get_elem? d.color p) (fill_value format.bytes_per_sample) ≡ some (shade p))
    → ((p : ℕ) → l % 2 ^ plane_ssw src.format p ≡ 0)
    → ((p : ℕ) → r % 2 ^ plane_ssw src.format p ≡ 0)
    → ((p : ℕ) → t % 2 ^ plane_ssh src.format p ≡ 0)
    → ((p : ℕ) → b % 2 ^ plane_ssh src.format p ≡ 0)
    → src.width + l + r < 2147483648
    → src.height + t + b < 2147483648
    → dst.format ≡ src.format
    → dst.width ≡ src.width + l + r
    → IsPainted src.format
        (src.width + l + r)
        (src.height + t + b)
        (border_plane d format src dst)
        (bordered shade src l t)
unfolding border_plane get_frame_width get_frame_height shift_right
border-IsPainted d format shade l r t b src dst f el er et eb colors dl dr dt db fw fh ef ew =
    painted src.format (src.width + l + r) (src.height + t + b) _ (bordered shade src l t)
      (omega (arith, f.width_pos)) fw (omega (arith, f.height_pos)) fh
      λ p lt.
        let (q, eq, sized) = f.each p lt in
        let ssw = plane_ssw src.format p in
        let ssh = plane_ssh src.format p in
        let w = plane_width src p in
        let h = plane_height src p in
        let wide : to_size_t (wrap32 (pos w)) ≡ w = size_lem src.width ssw f.width_fits in
        let tall : to_size_t (wrap32 (pos h)) ≡ h = size_lem src.height ssh f.height_fits in
        let all : to_size_t (wrap32 (pos ((src.width + l + r) / 2 ^ ssw)))
            ≡ l / 2 ^ ssw + w + r / 2 ^ ssw =
          size_lem (src.width + l + r) ssw fw ∙ split_div src.width l r ssw (dl p) (dr p) in
        let mid = pad_rows-IsDrawn (shade p) (l / 2 ^ ssw) w (r / 2 ^ ssw) h q sized in
        let d' =
          rows-IsDrawn (shade p) (l / 2 ^ ssw + w + r / 2 ^ ssw) h (t / 2 ^ ssh) (b / 2 ^ ssh)
            mid in
        let vw = split_div src.width l r ssw (dl p) (dr p) in
        let vh = split_div src.height t b ssh (dt p) (db p) in
        let (color, ec, es) =
          bind-some (get_elem? d.color p) (fill_value format.bytes_per_sample) (colors p lt) in
        rw (vw, vh)
          (read-IsDrawn src p (l / 2 ^ ssw + w + r / 2 ^ ssw) (t / 2 ^ ssh + h + b / 2 ^ ssh) _ _ eq
            (rw (ec, es, el, er, et, eb, ef, ew, wide, tall, all, mid.written)
              (IsDrawn-congr (l / 2 ^ ssw + w + r / 2 ^ ssw) (t / 2 ^ ssh + h + b / 2 ^ ssh)
                (λ i j hi hj.
                  ground (arith, sample_at_lem src p (i - t / 2 ^ ssh) (j - l / 2 ^ ssw) eq))
                d')))
