-- ===== src/Plugin/Clips/Laws.antt =====
-- The loops over the clips take each of them once, and give back what they took.
use cat_syn.Prelude.Int.{ℤ}
use cat_syn.Plugin.Helper.{int64_to_int_s}
use cat_syn.Prelude.{
  Bool, false, ◌||◌, map, if◌then◌else◌, ◌∙◌, ℕ, suc, ◌+◌, ◌≡◌, refl, ap, List, [], ◌∷◌, String,
  some, arith, length, get_elem?,
}
use cat_syn.Plugin.Types.{NodeRef, nodes, ints}
use cat_syn.Plugin.VsMap.{VsMap, find, prop_get_node_of_find, prop_get_int_of_find}
use cat_syn.Plugin.Action.{ok, stop}
use cat_syn.Plugin.Create.{Create, CreateState}
use cat_syn.Plugin.Clips.{get_clips, free_nodes, read_ints}

module _ {D : Type 0} (m : VsMap) (key : String) (vs : List NodeRef)
    (found : find key m ≡ some (nodes vs)) where
  get_clips_from :
      (i : ℕ) (rest : List NodeRef) (s : CreateState D)
      → ((j : ℕ) → get_elem? vs (i + j) ≡ get_elem? rest j)
      → get_clips m key i (length rest) s ≡ (ok rest, record s { nodes = s.nodes + length rest })
  unfolding get_clips
  get_clips_from i [] s h = ground arith
  get_clips_from i (v ∷ rest) s h = ground (
    arith,
    prop_get_node_of_find m key i found,
    h 0,
    get_clips_from (suc i) rest (record s { nodes = suc s.nodes }) (λ j. rw (shift j) (h (suc j))),
  )
    where
      shift : (j : ℕ) → suc i + j ≡ i + suc j
      shift j = omega arith

  -- The loop returns the clips in order, and holds a reference to each.
  pub get_clips_lem :
      (s : CreateState D)
      → get_clips m key 0 (length vs) s ≡ (ok vs, record s { nodes = s.nodes + length vs })
  get_clips_lem s = get_clips_from 0 vs s (λ j. ap (get_elem? vs) (omega arith))

pub free_nodes_lem :
    {D : Type 0} (vs : List NodeRef) (s : CreateState D) (k : ℕ)
    → s.nodes ≡ k + length vs
    → free_nodes vs s ≡ (ok tt, record s { nodes = k })
unfolding free_nodes
free_nodes_lem [] s k h = ground arith
free_nodes_lem (v ∷ rest) s k h =
    ground (arith, free_nodes_lem rest (record s { nodes = k + length rest }) k refl)

abbrev pub any_bad : (ℤ → Bool) → List ℤ → Bool
any_bad bad [] = false
any_bad bad (x ∷ xs) = bad x || any_bad bad xs

module _ {D : Type 0} (m : VsMap) (key : String) (xs : List ℤ) (bad : ℤ → Bool)
    (fail : Create D (Unit {0})) (found : find key m ≡ some (ints xs)) where
  read_ints_from :
      (i : ℕ) (rest : List ℤ) (s t : CreateState D)
      → ((j : ℕ) → get_elem? xs (i + j) ≡ get_elem? rest j)
      → fail s ≡ (stop, t)
      → read_ints m key bad fail i (length rest) s ≡ (
          if any_bad bad (map int64_to_int_s rest)
          then (stop, t)
          else (ok (map int64_to_int_s rest), s))
  unfolding read_ints
  read_ints_from i [] s t h f = refl
  read_ints_from i (x ∷ rest) s t h f = ground (
    arith,
    prop_get_int_of_find m key i {xs = xs} {x = x} found (ap (get_elem? xs) (omega arith) ∙ h 0),
    read_ints_from (suc i) rest s t (λ j. rw (shift j) (h (suc j))) f,
  )
    where
      shift : (j : ℕ) → suc i + j ≡ i + suc j
      shift j = omega arith

  -- The loop fails if one of the values is bad, and otherwise returns them all, in order.
  pub read_ints_lem :
      (s t : CreateState D)
      → fail s ≡ (stop, t)
      → read_ints m key bad fail 0 (length xs) s ≡ (
          if any_bad bad (map int64_to_int_s xs)
          then (stop, t)
          else (ok (map int64_to_int_s xs), s))
  read_ints_lem s t f = read_ints_from 0 xs s t (λ j. ap (get_elem? xs) (omega arith)) f
