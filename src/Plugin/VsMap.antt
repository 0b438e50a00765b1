-- ===== src/Plugin/VsMap.antt =====
-- The argument and property maps of Metalloporphyrin/src/map.cpp. A map is a table of named values;
-- a getter returns its value and the error code that it writes through `error`.
pub mod Laws
use cat_syn.Prelude.{
  ◌≡◌, arith, ℕ, Option, none, some, List, [], ◌∷◌, String, length, get_elem?, ltb, ◌==◌,
  if◌then◌else◌,
}
use cat_syn.Prelude.Int.{ℤ, pos, negsuc}
use cat_syn.Plugin.Types.{Value, ints, nodes, floats, others, null, NodeRef}
use text.Mathlib.Text.{◌==◌ as str_eq}

abbrev pub VsMap : Type 0
VsMap = List (String × Value)

-- `table->get(table->find(key))`
unfoldable pub find : String → VsMap → Option Value
find key [] = none
find key ((k, v) ∷ m) = if str_eq k key then some v else find key m

-- `table->set(table->find(key), value, key)`
unfoldable pub put : String → Value → VsMap → VsMap
put key v [] = (key, v) ∷ []
put key v ((k, w) ∷ m) = if str_eq k key then (k, v) ∷ m else (k, w) ∷ put key v m

-- `VSGetPropErrors`
abbrev pub pe_unset : ℕ
pe_unset = 1

abbrev pub pe_type : ℕ
pe_type = 2

abbrev pub pe_index : ℕ
pe_index = 4

-- `map_get_array` at integers.
map_get_array : Option Value → Option (List ℤ) × ℕ
map_get_array none = (none, pe_unset)
map_get_array (some null) = (none, pe_unset)
map_get_array (some (ints a)) = (some a, 0)
map_get_array (some (nodes a)) = (none, pe_type)
map_get_array (some (floats n)) = (none, pe_type)
map_get_array (some (others n)) = (none, pe_type)

map_get_numeric : Option (List ℤ) × ℕ → ℕ → ℤ × ℕ
map_get_numeric (none, e) i = (pos 0, e)
map_get_numeric (some a, e) i = elim (get_elem? a i) [ none ↦ (pos 0, pe_index) | some v ↦ (v, e) ]

-- `propGetInt`: the value, 0 where there is none, and the error code, 0 where there is a value.
unfoldable pub prop_get_int : VsMap → String → ℕ → ℤ × ℕ
unfolding find map_get_array map_get_numeric
prop_get_int m key i = map_get_numeric (map_get_array (find key m)) i

-- `propSetInt` with `paReplace`.
unfoldable pub prop_set_int : VsMap → String → ℤ → VsMap
unfolding put
prop_set_int m key v = put key (ints (v ∷ [])) m

-- `propDeleteKey`: the key stays, without an object.
unfoldable pub prop_delete_key : VsMap → String → VsMap
prop_delete_key [] key = []
prop_delete_key ((k, v) ∷ m) key =
    if str_eq k key then (k, null) ∷ m else (k, v) ∷ prop_delete_key m key

-- `map_get` at nodes, behind `propGetNode`.
map_get : Option Value → ℕ → Option NodeRef × ℕ
map_get none i = (none, pe_unset)
map_get (some null) i = (none, pe_unset)
map_get (some (ints a)) i = (none, if i == 0 then pe_type else pe_index)
map_get (some (floats n)) i = (none, if i == 0 then pe_type else pe_index)
map_get (some (others n)) i = (none, if ltb i n then pe_type else pe_index)
map_get (some (nodes a)) i = elim (get_elem? a i) [ none ↦ (none, pe_index) | some v ↦ (some v, 0) ]

-- `propGetNode`. A filter that has no substrate yet is given one by the source; in the model an
-- argument that is a node has its substrate.
unfoldable pub prop_get_node : VsMap → String → ℕ → Option NodeRef × ℕ
unfolding find map_get
prop_get_node m key i = map_get (find key m) i

num_values : Option Value → ℤ
num_values none = negsuc 0
num_values (some null) = negsuc 0
num_values (some (ints a)) = pos (length a)
num_values (some (nodes a)) = pos (length a)
num_values (some (floats n)) = pos n
num_values (some (others n)) = pos n

-- `propNumElements`: -1 for a missing key, or one without an object.
unfoldable pub prop_num_elements : VsMap → String → ℤ
unfolding find num_values
prop_num_elements m key = num_values (find key m)

-- What the getters give for a key that holds nodes.
pub prop_get_node_of_find :
    (m : VsMap) (key : String) (i : ℕ) {vs : List NodeRef}
    → find key m ≡ some (nodes vs)
    → (prop_get_node m key i).0 ≡ get_elem? vs i
unfolding prop_get_node
prop_get_node_of_find m key i e = ground arith

pub prop_num_elements_of_find :
    (m : VsMap) (key : String) {vs : List NodeRef}
    → find key m ≡ some (nodes vs)
    → prop_num_elements m key ≡ pos (length vs)
unfolding prop_num_elements
prop_num_elements_of_find m key e = rw e

-- What the getters give for a key that holds integers.
pub prop_get_int_of_find :
    (m : VsMap) (key : String) (i : ℕ) {xs : List ℤ} {x : ℤ}
    → find key m ≡ some (ints xs)
    → get_elem? xs i ≡ some x
    → prop_get_int m key i ≡ (x, 0)
unfolding prop_get_int
prop_get_int_of_find m key i e h = ground arith

pub prop_num_elements_of_ints :
    (m : VsMap) (key : String) {xs : List ℤ}
    → find key m ≡ some (ints xs)
    → prop_num_elements m key ≡ pos (length xs)
unfolding prop_num_elements
prop_num_elements_of_ints m key e = rw e
