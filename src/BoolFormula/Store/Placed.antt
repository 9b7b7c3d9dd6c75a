-- ===== src/BoolFormula/Store/Placed.antt =====
-- Formulas of boolformula.c in a store, without shared parts: each object with its address, its
-- reference count and its parts.
use dorder.Prelude.{ℕ, suc, ◌<◌, ◌≡◌, refl, ap, List, [], ◌∷◌, ◌++◌, Option, some, negate, max}
use dorder.BoolFormula.{Lit, BoolFormula, Formulas, nil, cons}
use dorder.BoolFormula.Build.{neg, neg_all}
use dorder.BoolFormula.Store.{Ptr, literal, disjunct, conjunct, node, Store}
use dorder.BoolFormula.Store.Count.{count, at}

mutual
  pub data Placed : Type 0 where
    leaf : Ptr → ℕ → Lit → Placed
    disjunction conjunction : Ptr → ℕ → Parts → Placed

  pub data Parts : Type 0 where
    end : Parts
    part : Placed → Parts → Parts

abbrev pub root : Placed → Ptr
root (leaf p ref l) = p
root (disjunction p ref ts) = p
root (conjunction p ref ts) = p

abbrev pub roots : Parts → List (Option Ptr)
roots end = []
roots (part t ts) = some (root t) ∷ roots ts

unfoldable mutual
  pub addresses : Placed → List Ptr
  addresses (leaf p ref l) = p ∷ []
  addresses (disjunction p ref ts) = p ∷ all_addresses ts
  addresses (conjunction p ref ts) = p ∷ all_addresses ts

  pub all_addresses : Parts → List Ptr
  all_addresses end = []
  all_addresses (part t ts) = addresses t ++ all_addresses ts

-- The depth, which bounds that of the calls.
unfoldable mutual
  pub height : Placed → ℕ
  height (leaf p ref l) = 1
  height (disjunction p ref ts) = suc (heights ts)
  height (conjunction p ref ts) = suc (heights ts)

  pub heights : Parts → ℕ
  heights end = 0
  heights (part t ts) = max (height t) (heights ts)

-- The formula that it stands for.
unfoldable mutual
  pub formula_of : Placed → BoolFormula
  formula_of (leaf p ref l) = BoolFormula.literal l
  formula_of (disjunction p ref ts) = BoolFormula.disjunct (formulas_of ts)
  formula_of (conjunction p ref ts) = BoolFormula.conjunct (formulas_of ts)

  pub formulas_of : Parts → Formulas
  formulas_of end = nil
  formulas_of (part t ts) = cons (formula_of t) (formulas_of ts)

-- The store holds it.
unfoldable mutual
  pub IsIn : Store → Placed → Type 0
  IsIn s (leaf p ref l) = at s p ≡ node ref (literal l)
  IsIn s (disjunction p ref ts) = (at s p ≡ node ref (disjunct (roots ts))) × AllIn s ts
  IsIn s (conjunction p ref ts) = (at s p ≡ node ref (conjunct (roots ts))) × AllIn s ts

  pub AllIn : Store → Parts → Type 0
  AllIn s end = Unit
  AllIn s (part t ts) = IsIn s t × AllIn s ts

-- The other connectives and signs, at the same addresses.
unfoldable mutual
  pub opposite : Placed → Placed
  opposite (leaf p ref l) = leaf p ref (negate l)
  opposite (disjunction p ref ts) = conjunction p ref (opposites ts)
  opposite (conjunction p ref ts) = disjunction p ref (opposites ts)

  pub opposites : Parts → Parts
  opposites end = end
  opposites (part t ts) = part (opposite t) (opposites ts)

pub root-opposite : (t : Placed) → root (opposite t) ≡ root t
unfolding opposite
root-opposite (leaf p ref l) = refl
root-opposite (disjunction p ref ts) = refl
root-opposite (conjunction p ref ts) = refl

pub roots-opposites : (ts : Parts) → roots (opposites ts) ≡ roots ts
unfolding opposite
roots-opposites end = refl
roots-opposites (part t ts) = rw (root-opposite t, roots-opposites ts) refl

mutual
  unfolding formula_of opposite neg

  formula-opposite : (t : Placed) → formula_of (opposite t) ≡ neg (formula_of t)
  formula-opposite (leaf p ref l) = refl
  formula-opposite (disjunction p ref ts) = ap BoolFormula.conjunct (formulas-opposites ts)
  formula-opposite (conjunction p ref ts) = ap BoolFormula.disjunct (formulas-opposites ts)

  formulas-opposites : (ts : Parts) → formulas_of (opposites ts) ≡ neg_all (formulas_of ts)
  formulas-opposites end = refl
  formulas-opposites (part t ts) = rw (formula-opposite t, formulas-opposites ts) refl

pub formula_of-opposite : (t : Placed) → formula_of (opposite t) ≡ neg (formula_of t)
formula_of-opposite t = formula-opposite t

mutual
  unfolding addresses opposite

  addresses-opposite' : (t : Placed) → addresses (opposite t) ≡ addresses t
  addresses-opposite' (leaf p ref l) = refl
  addresses-opposite' (disjunction p ref ts) = ap (λ l. p ∷ l) (all_addresses-opposites ts)
  addresses-opposite' (conjunction p ref ts) = ap (λ l. p ∷ l) (all_addresses-opposites ts)

  all_addresses-opposites : (ts : Parts) → all_addresses (opposites ts) ≡ all_addresses ts
  all_addresses-opposites end = refl
  all_addresses-opposites (part t ts) = rw (addresses-opposite' t, all_addresses-opposites ts) refl

pub addresses-opposite : (t : Placed) → addresses (opposite t) ≡ addresses t
addresses-opposite t = addresses-opposite' t

-- What a store holds depends on these addresses only.
abbrev pub Same : Store → Store → List Ptr → Type 0
Same s s' ps = (q : Ptr) → 0 < count q ps → at s' q ≡ at s q
