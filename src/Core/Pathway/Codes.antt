-- ===== src/Core/Pathway/Codes.antt =====
-- Orders that decide one after the other, and the orders of text and byte strings.
use Prim.Native.Nat.{compare, Ordering, lt, eq, gt}
use cat_syn.Prelude.{ℕ, ◌≡◌, ap, refl, List, [], ◌∷◌, length, arith}
use cat_syn.Core.Pathway.{then_by, cmp_text, memcmp, cmp_bytes}

abbrev pub flip : Ordering → Ordering
flip lt = gt
flip eq = eq
flip gt = lt

-- What a ? b and b ? c say of a ? c.
abbrev pub Composes : Ordering → Ordering → Ordering → Type 0
Composes lt lt z = z ≡ lt
Composes lt eq z = z ≡ lt
Composes lt gt z = Unit
Composes eq y z = z ≡ y
Composes gt lt z = Unit
Composes gt eq z = z ≡ gt
Composes gt gt z = z ≡ gt

pub flip-then_by :
    (c d c' d' : Ordering) → c' ≡ flip c → d' ≡ flip d → then_by c' d' ≡ flip (then_by c d)
flip-then_by lt d c' d' e f = ground arith
flip-then_by eq d c' d' e f = ground arith
flip-then_by gt d c' d' e f = ground arith

pub lt_any : (y : Ordering) → Composes lt y lt
lt_any lt = refl
lt_any eq = refl
lt_any gt = tt

pub any_gt : (x : Ordering) → Composes x gt gt
any_gt lt = tt
any_gt eq = refl
any_gt gt = refl

pub gt_any : (y : Ordering) → Composes gt y gt
gt_any lt = tt
gt_any eq = refl
gt_any gt = refl

pub any_lt : (x : Ordering) → Composes x lt lt
any_lt lt = refl
any_lt eq = refl
any_lt gt = tt

-- The second order decides where the first finds all three equal.
pub Composes-then_by :
    (x y z x' y' z' : Ordering)
    → Composes x y z
    → (x ≡ eq → y ≡ eq → Composes x' y' z')
    → Composes (then_by x x') (then_by y y') (then_by z z')
Composes-then_by lt lt lt x' y' z' p q = refl
Composes-then_by lt eq lt x' y' z' p q = lt_any y'
Composes-then_by lt gt z x' y' z' p q = tt
Composes-then_by eq lt lt x' y' z' p q = any_lt x'
Composes-then_by eq eq eq x' y' z' p q = q refl refl
Composes-then_by eq gt gt x' y' z' p q = any_gt x'
Composes-then_by gt lt z x' y' z' p q = tt
Composes-then_by gt eq gt x' y' z' p q = gt_any y'
Composes-then_by gt gt gt x' y' z' p q = refl
Composes-then_by x y z x' y' z' p q = cc

pub flip-compare : (a b : ℕ) → compare b a ≡ flip (compare a b)
flip-compare a b = ground arith

pub Composes-compare : (a b c : ℕ) → Composes (compare a b) (compare b c) (compare a c)
Composes-compare a b c = ground arith

pub flip-cmp_text : (a b : List ℕ) → cmp_text b a ≡ flip (cmp_text a b)
unfolding cmp_text
flip-cmp_text [] [] = refl
flip-cmp_text [] (y ∷ ys) = refl
flip-cmp_text (x ∷ xs) [] = refl
flip-cmp_text (x ∷ xs) (y ∷ ys) =
    flip-then_by (compare x y) (cmp_text xs ys) _ _ (flip-compare x y) (flip-cmp_text xs ys)

pub Composes-cmp_text : (a b c : List ℕ) → Composes (cmp_text a b) (cmp_text b c) (cmp_text a c)
unfolding cmp_text
Composes-cmp_text [] [] c = refl
Composes-cmp_text [] (y ∷ ys) [] = tt
Composes-cmp_text [] (y ∷ ys) (z ∷ zs) = lt_any (cmp_text (y ∷ ys) (z ∷ zs))
Composes-cmp_text (x ∷ xs) [] [] = refl
Composes-cmp_text (x ∷ xs) [] (z ∷ zs) = tt
Composes-cmp_text (x ∷ xs) (y ∷ ys) [] = any_gt (cmp_text (x ∷ xs) (y ∷ ys))
Composes-cmp_text (x ∷ xs) (y ∷ ys) (z ∷ zs) =
    Composes-then_by (compare x y) (compare y z) (compare x z) (cmp_text xs ys) (cmp_text ys zs)
      (cmp_text xs zs) (Composes-compare x y z) (λ p q. Composes-cmp_text xs ys zs)

-- Byte strings of one length compare as text does.
memcmp-cmp_text : (a b : List ℕ) → length a ≡ length b → memcmp a b ≡ cmp_text a b
unfolding memcmp cmp_text
memcmp-cmp_text [] [] e = refl
memcmp-cmp_text [] (y ∷ ys) e = absurd (omega arith)
memcmp-cmp_text (x ∷ xs) [] e = absurd (omega arith)
memcmp-cmp_text (x ∷ xs) (y ∷ ys) e =
    ap (then_by (compare x y)) (memcmp-cmp_text xs ys (omega arith))

then_by-cong : (c d e : Ordering) → (c ≡ eq → d ≡ e) → then_by c d ≡ then_by c e
then_by-cong lt d e f = refl
then_by-cong eq d e f = f refl
then_by-cong gt d e f = refl

cmp_bytes_lem :
    (a b : List ℕ) → cmp_bytes a b ≡ then_by (compare (length a) (length b)) (cmp_text a b)
unfolding cmp_bytes
cmp_bytes_lem a b =
    then_by-cong (compare (length a) (length b)) (memcmp a b) (cmp_text a b)
      (λ h. memcmp-cmp_text a b (ground arith))

pub flip-cmp_bytes : (a b : List ℕ) → cmp_bytes b a ≡ flip (cmp_bytes a b)
flip-cmp_bytes a b =
    rw (cmp_bytes_lem a b, cmp_bytes_lem b a)
      (flip-then_by (compare (length a) (length b)) (cmp_text a b) _ _
        (flip-compare (length a) (length b)) (flip-cmp_text a b))

pub Composes-cmp_bytes : (a b c : List ℕ) → Composes (cmp_bytes a b) (cmp_bytes b c) (cmp_bytes a c)
Composes-cmp_bytes a b c =
    rw (cmp_bytes_lem a b, cmp_bytes_lem b c, cmp_bytes_lem a c)
      (Composes-then_by (compare (length a) (length b)) (compare (length b) (length c))
        (compare (length a) (length c)) (cmp_text a b) (cmp_text b c) (cmp_text a c)
        (Composes-compare (length a) (length b) (length c)) (λ p q. Composes-cmp_text a b c))
