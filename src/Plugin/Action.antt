-- ===== src/Plugin/Action.antt =====
-- Code that runs over a state `S` and may end early. `stop` is a `return` before the end; `fault` is
-- what the interface does not survive: a write through a null `error` pointer, a failed
-- `cond_check`, a null pointer that is read, or a release of what is not held.
use cat_syn.Prelude.{ℕ, zero, suc, Bool, true, false, Option, none, some}

pub data Flow (A : Type 0) : Type 0 where
  ok : A → Flow A
  stop : Flow A
  fault : Flow A

abbrev pub Action : Type 0 → Type 0 → Type 0
Action S A = S → Flow A × S

infixl 5 ◌>>=◌ ◌>>◌
abbrev pub ◌>>=◌ : {S A B : Type 0} → Action S A → (A → Action S B) → Action S B
◌>>=◌ m f s =
    let (r, s') = m s in elim r [ ok a ↦ f a s' | stop ↦ (stop, s') | fault ↦ (fault, s') ]

abbrev pub ◌>>◌ : {S A B : Type 0} → Action S A → Action S B → Action S B
m >> k = m >>= λ _. k

module _ {S : Type 0} where
  abbrev pub pure : {A : Type 0} → A → Action S A
  pure a s = (ok a, s)

  abbrev pub skip : Action S (Unit {0})
  skip s = (ok tt, s)

  abbrev pub return_early : Action S (Unit {0})
  return_early s = (stop, s)

  abbrev pub when : Bool → Action S (Unit {0}) → Action S (Unit {0})
  when true m s = m s
  when false m s = (ok tt, s)

  abbrev pub modify : (S → S) → Action S (Unit {0})
  modify f s = (ok tt, f s)

  -- A value that has to be there.
  abbrev pub need : {A : Type 0} → Option A → Action S A
  need none s = (fault, s)
  need (some a) s = (ok a, s)

  -- Gives one of `n` held things back; there has to be one.
  abbrev pub release : ℕ → (ℕ → S) → Action S (Unit {0})
  release zero f s = (fault, s)
  release (suc k) f s = (ok tt, f k)

  -- `if (b) { m } else { k }`
  abbrev pub branch : {A : Type 0} → Bool → Action S A → Action S A → Action S A
  branch true m k s = m s
  branch false m k s = k s
