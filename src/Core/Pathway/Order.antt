-- ===== src/Core/Pathway/Order.antt =====
-- The order of the steps is one that an ordered map can stand on.
use Prim.Native.Nat.{compare, Ordering, lt, eq, gt}
use cat_syn.Prelude.{ℕ, ◌≡◌, ◌∙◌, ap, sym, refl, true, false}
use cat_syn.Core.Pathway.{
  Object, table, bytes, substrate, other, Slots, end, absent, present, StepDesc, then_by, cmp_text,
  cmp_vi, cmp_object, cmp_table, cmp_step, less, step_less,
}
use cat_syn.Core.Pathway.Codes.{
  flip, Composes, flip-then_by, lt_any, any_gt, Composes-then_by, flip-compare, Composes-compare,
  flip-cmp_text, Composes-cmp_text, flip-cmp_bytes, Composes-cmp_bytes,
}

-- The kinds of object in their order.
abbrev kind : Object → ℕ
kind (table l) = 3
kind (bytes l) = 2
kind (substrate l) = 1
kind (other l) = 0

cmp_object-kind :
    (a b : Object) → cmp_object a b ≡ then_by (compare (kind a) (kind b)) (cmp_object a b)
unfolding cmp_object
cmp_object-kind (table l) (table r) = refl
cmp_object-kind (bytes l) (bytes r) = refl
cmp_object-kind (substrate l) (substrate r) = refl
cmp_object-kind (other l) (other r) = refl
cmp_object-kind a b = refl

apart :
    (a b c : Object)
    → (compare (kind a) (kind b) ≡ eq → compare (kind b) (kind c) ≡ eq → ⊥)
    → Composes (cmp_object a b) (cmp_object b c) (cmp_object a c)
apart a b c f =
    let x : Composes (then_by (compare (kind a) (kind b)) (cmp_object a b))
        (then_by (compare (kind b) (kind c)) (cmp_object b c))
        (then_by (compare (kind a) (kind c)) (cmp_object a c)) =
      Composes-then_by (compare (kind a) (kind b)) (compare (kind b) (kind c))
        (compare (kind a) (kind c)) (cmp_object a b) (cmp_object b c) (cmp_object a c)
        (Composes-compare (kind a) (kind b) (kind c)) (λ p q. absurd (f p q)) in
    rw (cmp_object-kind a b, cmp_object-kind b c, cmp_object-kind a c) x

mutual
  unfolding cmp_object cmp_table cmp_vi

  flip-cmp_object : (a b : Object) → cmp_object b a ≡ flip (cmp_object a b)
  flip-cmp_object (table l) (table r) = flip-cmp_table l r
  flip-cmp_object (bytes l) (bytes r) = flip-cmp_bytes l r
  flip-cmp_object (substrate l) (substrate r) = flip-cmp_text l r
  flip-cmp_object (other l) (other r) = flip-compare l r
  flip-cmp_object a b = refl

  flip-cmp_table : (l r : Slots) → cmp_table r l ≡ flip (cmp_table l r)
  flip-cmp_table (present a l) (present b r) =
      flip-then_by (cmp_object a b) (cmp_table l r) _ _ (flip-cmp_object a b) (flip-cmp_table l r)
  flip-cmp_table (absent l) (absent r) = refl
  flip-cmp_table end end = refl
  flip-cmp_table l r = refl

mutual
  unfolding cmp_object cmp_table cmp_vi

  Composes-cmp_object :
      (a b c : Object) → Composes (cmp_object a b) (cmp_object b c) (cmp_object a c)
  Composes-cmp_object (table l) (table m) (table r) = Composes-cmp_table l m r
  Composes-cmp_object (bytes l) (bytes m) (bytes r) = Composes-cmp_bytes l m r
  Composes-cmp_object (substrate l) (substrate m) (substrate r) = Composes-cmp_text l m r
  Composes-cmp_object (other l) (other m) (other r) = Composes-compare l m r
  Composes-cmp_object a b c = apart a b c (λ p q. cc)

  Composes-cmp_table : (l m r : Slots) → Composes (cmp_table l m) (cmp_table m r) (cmp_table l r)
  Composes-cmp_table (present a l) (present b m) (present c r) =
      Composes-then_by (cmp_object a b) (cmp_object b c) (cmp_object a c) (cmp_table l m)
        (cmp_table m r) (cmp_table l r) (Composes-cmp_object a b c)
        (λ p q. Composes-cmp_table l m r)
  Composes-cmp_table (present a l) (present b m) end =
      any_gt (cmp_table (present a l) (present b m))
  Composes-cmp_table (present a l) (present b m) (absent r) =
      any_gt (cmp_table (present a l) (present b m))
  Composes-cmp_table end (present b m) (present c r) =
      lt_any (cmp_table (present b m) (present c r))
  Composes-cmp_table (absent l) (present b m) (present c r) =
      lt_any (cmp_table (present b m) (present c r))
  Composes-cmp_table end (present b m) end = tt
  Composes-cmp_table end (present b m) (absent r) = tt
  Composes-cmp_table (absent l) (present b m) end = tt
  Composes-cmp_table (absent l) (present b m) (absent r) = tt
  Composes-cmp_table (present a l) end (present c r) = tt
  Composes-cmp_table (present a l) (absent m) (present c r) = tt
  Composes-cmp_table l m r = refl

flip-cmp_step : (l r : StepDesc) → cmp_step r l ≡ flip (cmp_step l r)
unfolding cmp_step
flip-cmp_step l r =
    flip-then_by (cmp_text l.enzyme_id r.enzyme_id) _ _ _ (flip-cmp_text l.enzyme_id r.enzyme_id) (
      flip-then_by (cmp_text l.func_name r.func_name) _ _ _ (flip-cmp_text l.func_name r.func_name)
        (flip-cmp_table l.args r.args))

Composes-cmp_step : (l m r : StepDesc) → Composes (cmp_step l m) (cmp_step m r) (cmp_step l r)
unfolding cmp_step
Composes-cmp_step l m r =
    Composes-then_by _ _ _ _ _ _ (Composes-cmp_text l.enzyme_id m.enzyme_id r.enzyme_id) (λ p q.
      Composes-then_by _ _ _ _ _ _ (Composes-cmp_text l.func_name m.func_name r.func_name)
        (λ s t. Composes-cmp_table l.args m.args r.args))

self-flip : (c : Ordering) → c ≡ flip c → less c ≡ false
self-flip lt e = cc
self-flip eq e = refl
self-flip gt e = refl

less-flip : (c : Ordering) → less c ≡ true → less (flip c) ≡ false
less-flip lt h = refl
less-flip eq h = cc
less-flip gt h = cc

less_trans : (c d e : Ordering) → Composes c d e → less c ≡ true → less d ≡ true → less e ≡ true
less_trans lt lt lt p h k = refl
less_trans c d e p h k = cc

same_trans :
    (c d e : Ordering)
    → Composes c d e
    → less c ≡ false
    → less (flip c) ≡ false
    → less d ≡ false
    → less (flip d) ≡ false
    → (less e ≡ false) × (less (flip e) ≡ false)
same_trans eq eq eq p h k m n = (refl, refl)
same_trans c d e p h k m n = absurd cc

-- The order of the steps is a strict weak order, as the map that holds them requires: no step is before
-- itself, of two steps one at most is before the other, being before is transitive, and so is being
-- neither before nor after.
pub step_less-IsStrictWeak :
    (l m r : StepDesc)
    → (step_less l l ≡ false)
      × (step_less l m ≡ true → step_less m l ≡ false)
      × (step_less l m ≡ true → step_less m r ≡ true → step_less l r ≡ true)
      × (step_less l m ≡ false
          → step_less m l ≡ false
          → step_less m r ≡ false
          → step_less r m ≡ false
          → (step_less l r ≡ false) × (step_less r l ≡ false))
unfolding step_less
step_less-IsStrictWeak l m r =
    let p = Composes-cmp_step l m r in
    (
      self-flip (cmp_step l l) (flip-cmp_step l l),
      λ h. ap less (flip-cmp_step l m) ∙ less-flip (cmp_step l m) h,
      λ h k. less_trans (cmp_step l m) (cmp_step m r) (cmp_step l r) p h k,
      λ h k i j.
          let (a, b) =
            same_trans (cmp_step l m) (cmp_step m r) (cmp_step l r) p h
              (sym (ap less (flip-cmp_step l m)) ∙ k) i (sym (ap less (flip-cmp_step m r)) ∙ j) in
          (a, ap less (flip-cmp_step l r) ∙ b),
    )
