-- ===== src/Plugin/Clips.antt =====
-- The loops by which a filter takes its clips out of the arguments and gives them back.
pub mod Laws
use cat_syn.Prelude.{ℕ, zero, suc, Bool, List, [], ◌∷◌, ◌||◌, false, String}
use cat_syn.Plugin.Types.{NodeRef}
use cat_syn.Plugin.VsMap.{VsMap}
use cat_syn.Plugin.Action.{pure, skip, when, ◌>>=◌, ◌>>◌}
use cat_syn.Prelude.Int.{ℤ}
use cat_syn.Plugin.Create.{Create, get_int, get_node, free_node}
use cat_syn.Plugin.Helper.{int64_to_int_s, is_compat_format}

-- `for (i...; i < num; i++) node[i] = propGetNode(in, key, i, 0)`, from index i for so many rounds.
unfoldable pub get_clips : {D : Type 0} → VsMap → String → ℕ → ℕ → Create D (List NodeRef)
get_clips m key i zero = pure []
get_clips m key i (suc rounds) = do
  v ← get_node m key i
  rest ← get_clips m key (suc i) rounds
  pure (v ∷ rest)

-- `for (i...) freeNode(node[i])`
unfoldable pub free_nodes : {D : Type 0} → List NodeRef → Create D (Unit {0})
free_nodes [] = skip
free_nodes (v ∷ rest) = do free_node v; free_nodes rest

-- The flag `compat` of that loop.
unfoldable pub any_compat : List NodeRef → Bool
any_compat [] = false
any_compat (v ∷ rest) = is_compat_format v.vi || any_compat rest

-- `for (i...; i < num; i++) { x[i] = int64ToIntS(propGetInt(in, key, i, 0)); if (bad) fail }`
unfoldable pub read_ints :
    {D : Type 0} → VsMap → String → (ℤ → Bool) → Create D (Unit {0}) → ℕ → ℕ → Create D (List ℤ)
read_ints m key bad fail i zero = pure []
read_ints m key bad fail i (suc rounds) = do
  value ← get_int m key i
  let x = int64_to_int_s value
  when (bad x) fail
  rest ← read_ints m key bad fail (suc i) rounds
  pure (x ∷ rest)
