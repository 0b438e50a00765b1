-- ===== src/Simple/Transpose/Kernel.antt =====
-- Which cells the loops of the plane functions copy.
use cat_syn.Prelude.{
  ℕ, ◌+◌, ◌-◌, ◌*◌, ◌%◌, ◌≤◌, ◌<◌, ◌≡◌, refl, ◌∙◌, some, none, inl, inr, arith, length,
  get_elem?-some,
}
use native.Mathlib.Decide.{dec_lt}
use cat_syn.Plugin.Picture.{Plane}
use cat_syn.Plugin.Picture.Planes.{IsPlane, sample, sample_row, All-get}
use cat_syn.Simple.Transpose.{
  Store, copy_cell, for_to, line_rows, block_rows, one_row, transpose_plane,
}
use cat_syn.Simple.Transpose.Loops.{
  Placed, Copies, copy_cell-Copies, seq-Copies, Visited, loop-Copies,
}

-- A plane has a sample in each place.
pub sample-some :
    (w h : ℕ) (p : Plane) (i j : ℕ)
    → IsPlane w h p
    → i < h
    → j < w
    → (v : ℕ) × (sample p i j ≡ some v)
sample-some w h p i j t hi hj =
    let (row, e) = get_elem?-some p i (omega (arith, t.rows)) in
    let l : length row ≡ w = All-get (λ row. length row ≡ w) p i t.columns e in
    let (v, ev) = get_elem?-some row j (omega arith) in (v, sample_row p i e j ∙ ev)

module _ (w h : ℕ) (rows : Plane) (t : IsPlane w h rows) where
  cell-Copies :
      (i j : ℕ) → i < h → j < w → Copies rows (copy_cell rows h w i j) (λ x y. (x ≡ i) × (y ≡ j))
  cell-Copies i j hi hj =
      let (v, e) = sample-some w h rows i j t hi hj in copy_cell-Copies rows h w i j e hj hi

  -- A column of the source, from row i up to row b.
  column-Copies :
      (i b j : ℕ)
      → b ≤ h
      → j < w
      → Copies rows
          (for_to (λ ii. copy_cell rows h w ii j) i b 1)
          (λ x y. (k : ℕ) × Visited i b 1 k × ((x ≡ k) × (y ≡ j)))
  column-Copies i b j hb hj =
      loop-Copies rows (λ ii. copy_cell rows h w ii j) b 1 b i (λ k x y. (x ≡ k) × (y ≡ j))
        (omega arith) (omega arith) λ k v. cell-Copies k j (omega (arith, v.2)) hj

  -- The columns from a up to c, from row i up to row b.
  columns-Copies :
      (i b a c : ℕ)
      → b ≤ h
      → c ≤ w
      → Copies rows
          (for_to (λ j. for_to (λ ii. copy_cell rows h w ii j) i b 1) a c 1)
          (λ x y. (k : ℕ) × Visited a c 1 k × ((m : ℕ) × Visited i b 1 m × ((x ≡ m) × (y ≡ k))))
  columns-Copies i b a c hb hc =
      loop-Copies rows (λ j. for_to (λ ii. copy_cell rows h w ii j) i b 1) c 1 c a
        (λ k x y. (m : ℕ) × Visited i b 1 m × ((x ≡ m) × (y ≡ k))) (omega arith) (omega arith)
        λ k v. column-Copies i b k hb (omega (arith, v.2))

  -- The columns from a up to c of row i.
  row-Copies :
      (i a c : ℕ)
      → i < h
      → c ≤ w
      → Copies rows
          (for_to (λ j. copy_cell rows h w i j) a c 1)
          (λ x y. (k : ℕ) × Visited a c 1 k × ((x ≡ i) × (y ≡ k)))
  row-Copies i a c hi hc =
      loop-Copies rows (λ j. copy_cell rows h w i j) c 1 c a (λ k x y. (x ≡ i) × (y ≡ k))
        (omega arith) (omega arith) λ k v. cell-Copies i k hi (omega (arith, v.2))

  line_rows-Copies :
      (line i : ℕ)
      → i + line ≤ h
      → Copies rows (line_rows rows h w line w i) (λ x y. ((i ≤ x) × (x < i + line)) × (y < w))
  unfolding line_rows
  line_rows-Copies line i hi =
      seq-Copies rows _ _ _ _ _ (columns-Copies i (i + line) 0 (w - w % 1) hi (omega arith))
        (columns-Copies i (i + line) (w - w % 1) w hi (omega arith))
        λ x y c. inl (
          y,
          (y, omega arith, omega (arith, c.1)),
          (x, (x - i, omega (arith, c.0.0), c.0.1), (refl, refl)),
        )

  block_rows-Copies :
      (i : ℕ) → i < h → Copies rows (block_rows rows h w w i) (λ x y. (x ≡ i) × (y < w))
  unfolding block_rows
  block_rows-Copies i hi =
      seq-Copies rows _ _ _ _ _ (row-Copies i 0 (w - w % 1) hi (omega arith))
        (columns-Copies i (i + 1) (w - w % 1) w (omega arith) (omega arith))
        λ x y c. inl (y, (y, omega arith, omega (arith, c.1)), (c.0, refl))

  one_row-Copies : (i : ℕ) → i < h → Copies rows (one_row rows h w w i) (λ x y. (x ≡ i) × (y < w))
  unfolding one_row
  one_row-Copies i hi st =
      let s = row-Copies i 0 w hi (omega arith) st in
      record {
        after = s.after;
        written = s.written;
        keeps = s.keeps;
        makes = λ x y c. s.makes x y (y, (y, omega arith, c.1), (c.0, refl));
      }

  -- The three loops reach all of the plane, where the rows of a cache line do not pass the end of the
  -- first loop.
  pub transpose_plane-Copies :
      (line floor : ℕ)
      → 0 < line
      → ((k n : ℕ) → k ≡ 0 + n * line → k < h - h % floor → k + line ≤ h - h % floor)
      → ((x : ℕ) → x < h - h % floor → (k n : ℕ) × (k ≡ 0 + n * line) × (k ≤ x) × (x < k + line))
      → (st : Store) × (transpose_plane line floor rows h w w h ≡ some st)
        × ((i j : ℕ) → i < h → j < w → Placed rows st i j)
  unfolding transpose_plane
  transpose_plane-Copies line floor hl fit find =
      let lines =
        loop-Copies rows (line_rows rows h w line w) (h - h % floor) line (h - h % floor) 0
          (λ k x y. ((k ≤ x) × (x < k + line)) × (y < w)) hl (omega arith)
          (λ k v. line_rows-Copies line k (omega (arith, fit k v.0 v.1 v.2))) in
      let blocks =
        loop-Copies rows (block_rows rows h w w) (h - h % 1) 1 (h - h % 1) (h - h % floor)
          (λ k x y. (x ≡ k) × (y < w)) (omega arith) (omega arith)
          (λ k v. block_rows-Copies k (omega (arith, v.2))) in
      let single =
        loop-Copies rows (one_row rows h w w) h 1 h (h - h % 1) (λ k x y. (x ≡ k) × (y < w))
          (omega arith) (omega arith) (λ k v. one_row-Copies k v.2) in
      let rest =
        seq-Copies rows _ _ _ _ (λ x y. ((h - h % floor ≤ x) × (x < h)) × (y < w)) blocks single
          (λ x y c.
            inl (
              x,
              (x - (h - h % floor), omega (arith, c.0.0), omega (arith, c.0.1)),
              (refl, c.1),
            )) in
      let all =
        seq-Copies rows _ _ _ _ (λ x y. (x < h) × (y < w)) lines rest
          (λ x y c. elim (dec_lt x (h - h % floor)) [
            | yes l ↦ let (k, n, e, a, b) = find x l in inl (k, (n, e, omega arith), ((a, b), c.1))
            | no l ↦ inr ((omega arith, c.0), c.1)
          ]) in
      let r = all (λ x y. none) in (r.after, r.written, λ i j hi hj. r.makes i j (hi, hj))
