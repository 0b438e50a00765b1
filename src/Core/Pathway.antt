-- ===== src/Core/Pathway.antt =====
-- The order of the steps of a pathway, StepDescLess of CatSyn/src/pathway.cpp, by which the steps that
-- may share a substrate are found. Text, byte strings and the bytes of a VideoInfo are lists of codes.
pub mod Args
pub mod Accepts
pub mod Codes
pub mod Order
mod Tests
use Prim.Native.Nat.{compare, Ordering, lt, eq, gt}
use cat_syn.Prelude.{ℕ, Bool, true, false, List, [], ◌∷◌, length}

-- An object of an argument table: a table, a byte string, a substrate by its VideoInfo, or any other
-- by its address. A slot of a table may hold none.
mutual
  pub data Object : Type 0 where
    table : Slots → Object
    bytes : List ℕ → Object
    substrate : List ℕ → Object
    other : ℕ → Object

  pub data Slots : Type 0 where
    end : Slots
    absent : Slots → Slots
    present : Object → Slots → Slots

pub record StepDesc : Type 0 where
  pub enzyme_id : List ℕ
  pub func_name : List ℕ
  pub args : Slots

-- `if (cmp != 0) return cmp;` and what follows.
abbrev pub then_by : Ordering → Ordering → Ordering
then_by lt d = lt
then_by eq d = d
then_by gt d = gt

-- `<=>` of strings.
unfoldable pub cmp_text : List ℕ → List ℕ → Ordering
cmp_text [] [] = eq
cmp_text [] (y ∷ ys) = lt
cmp_text (x ∷ xs) [] = gt
cmp_text (x ∷ xs) (y ∷ ys) = then_by (compare x y) (cmp_text xs ys)

-- `memcmp` of as many bytes as the first has.
unfoldable pub memcmp : List ℕ → List ℕ → Ordering
memcmp [] ys = eq
memcmp (x ∷ xs) [] = eq
memcmp (x ∷ xs) (y ∷ ys) = then_by (compare x y) (memcmp xs ys)

unfoldable pub cmp_bytes : List ℕ → List ℕ → Ordering
unfolding memcmp
cmp_bytes l r = then_by (compare (length l) (length r)) (memcmp l r)

-- `cmp_vi`: the bytes of two VideoInfo, each with the padding that its copy has, which is taken to be
-- the same whenever a substrate is compared.
unfoldable pub cmp_vi : List ℕ → List ℕ → Ordering
unfolding cmp_text
cmp_vi l r = cmp_text l r

-- `cmp_table`, and what it does with two objects. A slot without an object ends the comparison, as the
-- end of the table does.
mutual
  unfolding cmp_bytes cmp_vi

  pub cmp_object : Object → Object → Ordering
  cmp_object (table l) (table r) = cmp_table l r
  cmp_object (table l) (bytes r) = gt
  cmp_object (table l) (substrate r) = gt
  cmp_object (table l) (other r) = gt
  cmp_object (bytes l) (table r) = lt
  cmp_object (bytes l) (bytes r) = cmp_bytes l r
  cmp_object (bytes l) (substrate r) = gt
  cmp_object (bytes l) (other r) = gt
  cmp_object (substrate l) (table r) = lt
  cmp_object (substrate l) (bytes r) = lt
  cmp_object (substrate l) (substrate r) = cmp_vi l r
  cmp_object (substrate l) (other r) = gt
  cmp_object (other l) (table r) = lt
  cmp_object (other l) (bytes r) = lt
  cmp_object (other l) (substrate r) = lt
  cmp_object (other l) (other r) = compare l r

  pub cmp_table : Slots → Slots → Ordering
  cmp_table end end = eq
  cmp_table end (absent r) = eq
  cmp_table end (present b r) = lt
  cmp_table (absent l) end = eq
  cmp_table (absent l) (absent r) = eq
  cmp_table (absent l) (present b r) = lt
  cmp_table (present a l) end = gt
  cmp_table (present a l) (absent r) = gt
  cmp_table (present a l) (present b r) = then_by (cmp_object a b) (cmp_table l r)

unfoldable pub cmp_step : StepDesc → StepDesc → Ordering
unfolding cmp_text cmp_table
cmp_step l r =
    then_by (cmp_text l.enzyme_id r.enzyme_id)
      (then_by (cmp_text l.func_name r.func_name) (cmp_table l.args r.args))

-- `cmp < 0`
abbrev pub less : Ordering → Bool
less lt = true
less eq = false
less gt = false

-- `StepDescLess::operator()`
unfoldable pub step_less : StepDesc → StepDesc → Bool
unfolding cmp_step
step_less l r = less (cmp_step l r)
