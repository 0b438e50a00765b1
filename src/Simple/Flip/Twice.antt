-- ===== src/Simple/Flip/Twice.antt =====
-- The flips one after the other.
use cat_syn.Prelude.{
  ℕ, ◌%◌, ◌<◌, ◌≡◌, refl, ◌∙◌, sym, ap, subst, Bool, true, false, some, List, [], arith,
}
use cat_syn.Prelude.Int.{ℤ, pos}
use cat_syn.Plugin.Types.{Frame, NodeRef}
use cat_syn.Plugin.Picture.{Plane, each_plane}
use cat_syn.Plugin.Picture.Frames.{IsFrame}
use cat_syn.Plugin.Helper.{SingleClipData}
use cat_syn.Plugin.Fetch.{
  FrameSource, GetFrame, run_frame, source, frame, find_input_self, filtered, filtered_lem,
}
use cat_syn.Simple.Fields.{xor}
use cat_syn.Simple.Flip.{
  FlipHorizontalData, same_size, flip_vertical_plane, flip_vertical_getframe, flip_horizontal_plane,
  flip_horizontal_planes, flip_horizontal_getframe, supported,
}
use cat_syn.Simple.Flip.Mirror.{IsMirror, IsMirror-self, IsMirror-trans, IsMirror-unique}
use cat_syn.Simple.Flip.Laws.{
  flip_vertical-IsPainted, flip_horizontal-IsPainted, painted-IsMirror, same_size_lem,
}

vertical_run :
    (d : SingleClipData) (serve : FrameSource → Frame) (n : ℤ) (src : Frame) {planes : List Plane}
    → serve (source d.node n) ≡ src
    → each_plane (flip_vertical_plane src) 0 src.format.num_planes ≡ some planes
    → run_frame (flip_vertical_getframe d) serve n ≡ frame (same_size src planes) 0 0
unfolding flip_vertical_getframe
vertical_run d serve n src e w =
    ground (arith, find_input_self (source d.node n) (serve (source d.node n)) [])

horizontal_run :
    (d : FlipHorizontalData) (serve : FrameSource → Frame) (n : ℤ) (src : Frame)
    {planes : List Plane}
    → serve (source d.node n) ≡ src
    → supported src.format.bytes_per_sample ≡ true
    → each_plane (flip_horizontal_plane d.flip src) 0 src.format.num_planes ≡ some planes
    → run_frame (flip_horizontal_getframe d) serve n ≡ frame (same_size src planes) 0 0
unfolding flip_horizontal_getframe flip_horizontal_planes each_plane
horizontal_run d serve n src e b w =
    ground (arith, find_input_self (source d.node n) (serve (source d.node n)) [])

-- A filter delivers a mirror image of frame n of its source.
record IsFlipped (get_frame : GetFrame (Unit {0})) (serve : FrameSource → Frame) (n : ℤ)
    (v h : Bool) (src : Frame) : Type 0 where
  image : Frame
  delivered : run_frame get_frame serve n ≡ frame image 0 0
  mirror : IsMirror v h src image

flip_vertical-IsFlipped :
    (d : SingleClipData) (serve : FrameSource → Frame) (n : ℤ) (src : Frame)
    → serve (source d.node n) ≡ src
    → IsFrame src
    → IsFlipped (flip_vertical_getframe d) serve n true false src
flip_vertical-IsFlipped d serve n src e f =
    let c = flip_vertical-IsPainted src f in
    record {
      image = record src { planes = c.planes };
      delivered =
          vertical_run d serve n src e c.written
          ∙ ap (λ (r : Frame). frame r 0 0) (same_size_lem src c.planes f);
      mirror = painted-IsMirror true false src (flip_vertical_plane src) c;
    }

flip_horizontal-IsFlipped :
    (d : FlipHorizontalData) (serve : FrameSource → Frame) (n : ℤ) (src : Frame)
    → serve (source d.node n) ≡ src
    → IsFrame src
    → supported src.format.bytes_per_sample ≡ true
    → IsFlipped (flip_horizontal_getframe d) serve n d.flip true src
flip_horizontal-IsFlipped d serve n src e f b =
    let c = flip_horizontal-IsPainted d.flip src f in
    record {
      image = record src { planes = c.planes };
      delivered =
          horizontal_run d serve n src e b c.written
          ∙ ap (λ (r : Frame). frame r 0 0) (same_size_lem src c.planes f);
      mirror = painted-IsMirror d.flip true src (flip_horizontal_plane d.flip src) c;
    }

-- A filter over a filter: the second one flips the image that the first one delivers.
IsFlipped-twice :
    (first second : GetFrame (Unit {0})) (serve : FrameSource → Frame) (blank : Frame) (v : NodeRef)
    (n : ℕ) (a b a' b' : Bool) (src : Frame)
    → n < 2147483648
    → IsFlipped first serve (pos n) a b src
    → ((g : Frame)
        → filtered first serve blank (source v (pos n)) ≡ g
        → IsMirror a b src g
        → IsFlipped second (filtered first serve blank) (pos n) a' b' g)
    → IsFlipped second (filtered first serve blank) (pos n) (xor a a') (xor b b') src
IsFlipped-twice first second serve blank v n a b a' b' src small one two =
    let idx : n % 18446744073709551616 ≡ n = omega arith in
    let here : run_frame first serve (pos (source v (pos n)).frame_idx) ≡ frame one.image 0 0 =
      rw idx one.delivered in
    let t = two one.image (filtered_lem first serve blank (source v (pos n)) here) one.mirror in
    record {
      image = t.image;
      delivered = t.delivered;
      mirror = IsMirror-trans a b a' b' src one.image t.image one.mirror t.mirror;
    }

-- Two that deliver the same image deliver the same frame.
same_image :
    (first second : GetFrame (Unit {0})) (serve serve' : FrameSource → Frame) (n : ℤ) (a b : Bool)
    (src : Frame)
    → IsFlipped first serve n a b src
    → IsFlipped second serve' n a b src
    → run_frame first serve n ≡ run_frame second serve' n
same_image first second serve serve' n a b src s t =
    s.delivered
    ∙ ap (λ (r : Frame). frame r 0 0) (IsMirror-unique a b src s.image t.image s.mirror t.mirror)
    ∙ sym t.delivered

unflipped :
    (get_frame : GetFrame (Unit {0})) (serve : FrameSource → Frame) (n : ℤ) (src : Frame)
    → IsFlipped get_frame serve n false false src
    → IsFrame src
    → run_frame get_frame serve n ≡ frame src 0 0
unflipped get_frame serve n src t f =
    t.delivered
    ∙ ap (λ (r : Frame). frame r 0 0)
        (IsMirror-unique false false src t.image src t.mirror (IsMirror-self src f))

xor_self : (b : Bool) → xor b b ≡ false
xor_self true = refl
xor_self false = refl

module _ (serve : FrameSource → Frame) (blank : Frame) (n : ℕ) where
  -- FlipVertical over FlipVertical delivers the frames of the source unchanged, and so does
  -- FlipHorizontal over FlipHorizontal, and Turn180 over Turn180, where the sample size is supported.
  pub flips_twice :
      (d1 d2 : SingleClipData) (e1 e2 : FlipHorizontalData)
      → n < 2147483648
      → IsFrame (serve (source d1.node (pos n)))
      → IsFrame (serve (source e1.node (pos n)))
      → supported (serve (source e1.node (pos n))).format.bytes_per_sample ≡ true
      → e1.flip ≡ e2.flip
      → (run_frame
            (flip_vertical_getframe d2)
            (filtered (flip_vertical_getframe d1) serve blank)
            (pos n)
          ≡ frame (serve (source d1.node (pos n))) 0 0)
        × (run_frame
              (flip_horizontal_getframe e2)
              (filtered (flip_horizontal_getframe e1) serve blank)
              (pos n)
            ≡ frame (serve (source e1.node (pos n))) 0 0)
  flips_twice d1 d2 e1 e2 small f g b same =
      let src = serve (source d1.node (pos n)) in
      let top = serve (source e1.node (pos n)) in
      let both =
        IsFlipped-twice (flip_horizontal_getframe e1) (flip_horizontal_getframe e2) serve blank
          e2.node n e1.flip true e2.flip true top small
          (flip_horizontal-IsFlipped e1 serve (pos n) top refl g b)
          λ k ek m. flip_horizontal-IsFlipped e2 _ (pos n) k ek m.frame (rw m.format b) in
      let back : xor e1.flip e2.flip ≡ false = rw same (xor_self e2.flip) in
      (
        unflipped (flip_vertical_getframe d2) _ (pos n) src
            (IsFlipped-twice (flip_vertical_getframe d1) (flip_vertical_getframe d2) serve blank
              d2.node n true false true false src small
              (flip_vertical-IsFlipped d1 serve (pos n) src refl f)
              λ k ek m. flip_vertical-IsFlipped d2 _ (pos n) k ek m.frame)
            f,
        unflipped (flip_horizontal_getframe e2) _ (pos n) top
            (subst
              (λ z.
                IsFlipped (flip_horizontal_getframe e2)
                  (filtered (flip_horizontal_getframe e1) serve blank) (pos n) z false top)
              back both)
            g,
      )

  -- Turn180 delivers what FlipVertical over FlipHorizontal delivers, where the sample size is
  -- supported.
  pub turn180_lem :
      (t e : FlipHorizontalData) (d : SingleClipData)
      → n < 2147483648
      → t.flip ≡ true
      → e.flip ≡ false
      → t.node ≡ e.node
      → IsFrame (serve (source e.node (pos n)))
      → supported (serve (source e.node (pos n))).format.bytes_per_sample ≡ true
      → run_frame (flip_horizontal_getframe t) serve (pos n)
        ≡ run_frame
            (flip_vertical_getframe d)
            (filtered (flip_horizontal_getframe e) serve blank)
            (pos n)
  turn180_lem t e d small ft fe same f b =
      let src = serve (source e.node (pos n)) in
      let h =
        subst (λ z. IsFlipped (flip_horizontal_getframe e) serve (pos n) z true src) fe
          (flip_horizontal-IsFlipped e serve (pos n) src refl f b) in
      let k =
        subst (λ z. IsFlipped (flip_horizontal_getframe t) serve (pos n) z true src) ft
          (flip_horizontal-IsFlipped t serve (pos n) src
            (ap (λ (v : NodeRef). serve (source v (pos n))) same) f b) in
      same_image (flip_horizontal_getframe t) (flip_vertical_getframe d) serve _ (pos n) true true
        src k
        (IsFlipped-twice (flip_horizontal_getframe e) (flip_vertical_getframe d) serve blank d.node
          n false true true false src small h
          λ g eg m. flip_vertical-IsFlipped d _ (pos n) g eg m.frame)
