-- ===== src/Reorder/FreezeFrames/Ranges.antt =====
-- Which replacement a frame has, among ranges in order that lie apart.
use cat_syn.Prelude.{
  ℕ, ◌<◌, ◌≡◌, refl, Bool, false, some, List, [], ◌∷◌, ◌&&◌, not, arith, length, get_elem?, All,
  count_if, Bool-cases, inl, inr,
}
use cat_syn.Prelude.Int.{ℤ, pos, ltb_ℤ, leb_ℤ, eqb_ℤ, ◌≤ℤ◌, ◌<ℤ◌, int_sub}
use cat_syn.Plugin.Qsort.{IsOrdered, IsAll, IsConsistent}
use cat_syn.Reorder.FreezeFrames.{Freeze, covers, freeze_index, frozen, freeze_frames_sort, overlap}

-- Each range has its ends in order, and ends before any later one begins.
abbrev pub IsApart : List Freeze → Type 0
IsApart [] = Unit
IsApart (r ∷ rest) = (r.first ≤ℤ r.last) × All (λ q. r.last <ℤ q.first) rest × IsApart rest

-- A range over n that has another replacement than i.
abbrev pub differs : ℤ → ℤ → Freeze → Bool
differs n i r = covers n r && not (eqb_ℤ r.replacement i)

none_cover :
    (n i x : ℤ) (rest : List Freeze)
    → All (λ q. x <ℤ q.first) rest
    → n ≤ℤ x
    → (count_if (differs n i) rest ≡ 0) × (count_if (covers n) rest ≡ 0)
none_cover n i x [] h le = (refl, refl)
none_cover n i x (q ∷ rest) h le = ground (arith, none_cover n i x rest h.1 le)

-- All ranges over n have the replacement that the loop finds.
pub freeze_index-differs :
    (n : ℤ) (rs : List Freeze) → IsApart rs → count_if (differs n (freeze_index n rs)) rs ≡ 0
unfolding freeze_index
freeze_index-differs n [] h = refl
freeze_index-differs n (r ∷ rest) h =
    ground (arith, freeze_index-differs n rest h.2, none_cover n r.replacement r.last rest h.1)

pub freeze_index-uncovered :
    (n : ℤ) (rs : List Freeze) → count_if (covers n) rs ≡ 0 → freeze_index n rs ≡ n
unfolding freeze_index
freeze_index-uncovered n [] h = refl
freeze_index-uncovered n (r ∷ rest) h = ground (arith, freeze_index-uncovered n rest)

ends_before :
    (r : Freeze) (rest : List Freeze) {e : Freeze}
    → IsApart (r ∷ rest)
    → get_elem? (r ∷ rest) (length rest) ≡ some e
    → All (λ q. q.last ≤ℤ e.last) (r ∷ rest)
ends_before r [] h at = (ground arith, tt)
ends_before r (q ∷ rest) {e} h at =
    let later = ends_before q rest {e = e} h.2 at in (omega (arith, h.1.0, h.2.0, later.0), later)

uncovered-after :
    (n x : ℤ) (rs : List Freeze) → All (λ q. q.last ≤ℤ x) rs → x <ℤ n → count_if (covers n) rs ≡ 0
uncovered-after n x [] h lt = refl
uncovered-after n x (q ∷ rest) h lt = ground (arith, uncovered-after n x rest h.1 lt)

-- The test on the first and the last range changes nothing.
pub frozen-freeze_index :
    (n : ℤ) (r : Freeze) (rest : List Freeze) {e : Freeze}
    → IsApart (r ∷ rest)
    → get_elem? (r ∷ rest) (length rest) ≡ some e
    → frozen n r e (r ∷ rest) ≡ freeze_index n (r ∷ rest)
unfolding frozen
frozen-freeze_index n r rest {e} h at = ground (
  arith,
  freeze_index-uncovered n (r ∷ rest),
  uncovered-after n e.last (r ∷ rest) (ends_before r rest h at),
  none_cover n (pos 0) r.last rest h.1,
  h.0,
)

-- The ranges that pass the test on a source of `len` frames.
abbrev pub IsInside : ℕ → Freeze → Type 0
IsInside len r =
    (pos 0 ≤ℤ r.first)
    × (r.first ≤ℤ r.last)
    × (r.last <ℤ pos len)
    × (pos 0 ≤ℤ r.replacement)
    × (r.replacement <ℤ pos len)

first_after :
    (len : ℕ) (x y : Freeze) (rest : List Freeze)
    → len < 2147483648
    → x.last <ℤ y.first
    → IsInside len y
    → All (IsInside len) rest
    → All (λ q. freeze_frames_sort y q ≤ℤ pos 0) rest
    → All (λ q. x.last <ℤ q.first) rest
unfolding freeze_frames_sort int_sub
first_after len x y [] small lt iy h o = tt
first_after len x y (q ∷ rest) small lt iy h o =
    (ground (arith, iy, h.0, o.0), first_after len x y rest small lt iy h.1 o.1)

-- The ranges that the comparison, a difference of ints, orders.
abbrev pub small_range : Freeze → Bool
small_range r = leb_ℤ (pos 0) r.first && ltb_ℤ r.first (pos 2147483648)

pub freeze_frames_sort-IsConsistent : IsConsistent freeze_frames_sort small_range
unfolding freeze_frames_sort int_sub
freeze_frames_sort-IsConsistent = record {
  total = λ x y px py. elim (Bool-cases (leb_ℤ x.first y.first)) [
    | inl e ↦ inl (ground arith)
    | inr e ↦ inr (ground arith)
  ];
  transitive = λ x y z px py pz h h'. ground arith;
}

pub small_range-IsAll :
    (len : ℕ) (rs : List Freeze)
    → len < 2147483648
    → All (IsInside len) rs
    → IsAll freeze_frames_sort small_range rs
small_range-IsAll len [] small h = tt
small_range-IsAll len (r ∷ rs) small h = (ground (arith, h.0), small_range-IsAll len rs small h.1)

-- Sorted ranges of which none reaches into the next lie apart.
pub sorted-IsApart :
    (len : ℕ) (rs : List Freeze)
    → len < 2147483648
    → All (IsInside len) rs
    → IsOrdered freeze_frames_sort rs
    → overlap rs ≡ false
    → IsApart rs
unfolding overlap
sorted-IsApart len [] small h o e = tt
sorted-IsApart len (r ∷ []) small h o e = (h.0.1, tt, tt)
sorted-IsApart len (r ∷ q ∷ rest) small h o e =
    let lt : r.last <ℤ q.first = ground arith in
    (
      h.0.1,
      (lt, first_after len r q rest small lt h.1.0 h.1.1 o.1.0),
      sorted-IsApart len (q ∷ rest) small h.1 o.1 (ground arith),
    )

-- A frame that the loop finds is in the source.
pub freeze_index-inside :
    (len n : ℕ) (rs : List Freeze)
    → All (IsInside len) rs
    → n < len
    → (pos 0 ≤ℤ freeze_index (pos n) rs) × (freeze_index (pos n) rs <ℤ pos len)
unfolding freeze_index
freeze_index-inside len n [] h lt = (omega arith, omega arith)
freeze_index-inside len n (r ∷ rest) h lt =
    ground (arith, freeze_index-inside len n rest h.1 lt, h.0)
