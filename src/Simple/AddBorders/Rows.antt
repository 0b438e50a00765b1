-- ===== src/Simple/AddBorders/Rows.antt =====
-- Lists and planes with padding around them.
use cat_syn.Prelude.{
  ℕ, zero, suc, ◌+◌, ◌-◌, ◌≤◌, ◌<◌, ◌≡◌, refl, ◌∙◌, Option, some, List, [], ◌∷◌, ◌++◌, arith,
  length, get_elem?, take, drop, replicate, All, ltb, if◌then◌else◌, length-append,
  length-replicate, get_elem?-append_left, get_elem?-append_right, get_elem?-take,
}
use cat_syn.Plugin.Picture.{Plane}
use cat_syn.Plugin.Picture.Planes.{
  IsPlane, sample, slice_lem, length-slice, sample-cons, sample_head,
}
use cat_syn.Plugin.Picture.Frames.{IsDrawn}
use cat_syn.Simple.AddBorders.{pad_rows}
use native.Mathlib.Decide.{dec_lt}

-- What stands at place j between `before` copies of a value, `size` places of `F`, and copies again.
abbrev pub padded {ℓ} : {A : Type ℓ} → A → ℕ → ℕ → (ℕ → Option A) → ℕ → Option A
padded c before size F j =
    if ltb j before then some c else if ltb j (before + size) then F (j - before) else some c

module _ {A : Type 0} (c : A) where
  pub get_elem?-replicate : (n i : ℕ) → i < n → get_elem? (replicate n c) i ≡ some c
  get_elem?-replicate zero i h = absurd (omega arith)
  get_elem?-replicate (suc n) zero h = refl
  get_elem?-replicate (suc n) (suc i) h = get_elem?-replicate n i (omega arith)

  pub get_elem?-padded :
      (l r : ℕ) (xs : List A) (j : ℕ)
      → j < l + length xs + r
      → get_elem? (replicate l c ++ (xs ++ replicate r c)) j
        ≡ padded c l (length xs) (get_elem? xs) j
  get_elem?-padded l r xs j h = elim (dec_lt j l) [
    | yes a ↦ ground (
      arith,
      get_elem?-append_left (replicate l c) (xs ++ replicate r c) j,
      length-replicate l c,
      get_elem?-replicate l j a,
    )
    | no a ↦ elim (dec_lt j (l + length xs)) [
      | yes b ↦
          let e : length (replicate l c) + (j - l) ≡ j = omega (arith, length-replicate l c) in
          let s = get_elem?-append_right (replicate l c) (xs ++ replicate r c) (j - l) in
          let t = get_elem?-append_left xs (replicate r c) (j - l) (omega arith) in
          ground (arith, e, s, t)
      | no b ↦
          let e : length (replicate l c) + (j - l) ≡ j = omega (arith, length-replicate l c) in
          let f : length xs + (j - l - length xs) ≡ j - l = omega arith in
          let s = get_elem?-append_right (replicate l c) (xs ++ replicate r c) (j - l) in
          let t = get_elem?-append_right xs (replicate r c) (j - l - length xs) in
          let u = get_elem?-replicate r (j - l - length xs) (omega arith) in
          ground (arith, e, f, s, t, u)
    ]
  ]

  pub length-padded :
      (l r : ℕ) (xs : List A) → length (replicate l c ++ (xs ++ replicate r c)) ≡ l + length xs + r
  length-padded l r xs = omega (
    arith,
    length-append (replicate l c) (xs ++ replicate r c),
    length-append xs (replicate r c),
    length-replicate l c,
    length-replicate r c,
  )

pub All-replicate : {A : Type 0} (P : A → Type 0) (n : ℕ) (x : A) → P x → All P (replicate n x)
All-replicate P zero x h = tt
All-replicate P (suc n) x h = (h, All-replicate P n x h)

pub All-append :
    {A : Type 0} (P : A → Type 0) (xs ys : List A) → All P xs → All P ys → All P (xs ++ ys)
All-append P [] ys a b = b
All-append P (x ∷ xs) ys a b = (a.0, All-append P xs ys a.1 b)

-- A row with its padding.
padded_row :
    (c l w r j : ℕ) (row : List ℕ) (p q : Plane)
    → length row ≡ w
    → j < l + w + r
    → sample ((replicate l c ++ (take w (drop 0 row) ++ replicate r c)) ∷ p) 0 j
      ≡ padded c l w (sample (row ∷ q) 0) j
padded_row c l w r j row p q len h =
    let n : length (take w (drop 0 row)) ≡ w = length-slice 0 w row (omega arith) in
    let at = get_elem?-padded c l r (take w (drop 0 row)) j (omega arith) in
    let inner : j - l < w → get_elem? (take w (drop 0 row)) (j - l) ≡ get_elem? row (j - l) =
      get_elem?-take w row (j - l) in
    ground (
      arith,
      at,
      n,
      sample_head (replicate l c ++ (take w (drop 0 row) ++ replicate r c)) p j,
      sample_head row q (j - l),
      inner,
    )

pub pad_rows-IsDrawn :
    (c l w r h : ℕ) (rows : Plane)
    → IsPlane w h rows
    → IsDrawn (l + w + r) h (pad_rows c l w r h rows) (λ i j. padded c l w (sample rows i) j)
unfolding pad_rows
pad_rows-IsDrawn c l w r zero rows t = record {
  plane = [];
  written = refl;
  sized = record { rows = refl; columns = tt };
  same = λ i j hi hj. absurd (omega arith);
}
pad_rows-IsDrawn c l w r (suc h) [] t = absurd (omega (arith, t.rows))
pad_rows-IsDrawn c l w r (suc h) (x ∷ rows) t =
    let rest =
      pad_rows-IsDrawn c l w r h rows
        (record { rows = omega (arith, t.rows); columns = t.columns.1 }) in
    let lx : 0 + w ≤ length x = omega (arith, t.columns.0) in
    record {
      plane = (replicate l c ++ (take w (drop 0 x) ++ replicate r c)) ∷ rest.plane;
      written = rw (slice_lem 0 w x lx, rest.written) refl;
      sized = record {
        rows = omega (arith, rest.sized.rows);
        columns = (
          omega (arith, length-padded c l r (take w (drop 0 x)), length-slice 0 w x lx),
          rest.sized.columns,
        );
      };
      same = same c l w r h x rows rest.plane t.columns.0 rest.same;
    }
  where
    same :
        (c l w r h : ℕ) (x : List ℕ) (rows copy : Plane)
        → length x ≡ w
        → ((i j : ℕ) → i < h → j < l + w + r → sample copy i j ≡ padded c l w (sample rows i) j)
        → (i j : ℕ) → i < suc h
        → j < l + w + r
        → sample ((replicate l c ++ (take w (drop 0 x) ++ replicate r c)) ∷ copy) i j
          ≡ padded c l w (sample (x ∷ rows) i) j
    same c l w r h x rows copy e rest zero j hi hj = padded_row c l w r j x copy rows e hj
    same c l w r h x rows copy e rest (suc i) j hi hj =
        sample-cons _ copy i j
        ∙ rest i j (omega arith) hj
        ∙ ground (arith, sample-cons x rows i (j - l))
