-- ===== src/BoolFormula/Store/Negated.antt =====
-- `boolformula_neg` of boolformula.c on the store: what the value of the formula becomes.
use dorder.Prelude.{ℕ, ◌≤◌, ◌≡◌, not, ◌∙◌, ap, done}
use dorder.BoolFormula.Build.{HasLiterals, eval-neg}
use dorder.BoolFormula.Meaning.{Assignment, eval}
use dorder.BoolFormula.Store.{Store, neg}
use dorder.BoolFormula.Store.Placed.{
  Placed, root, addresses, height, formula_of, IsIn, opposite, root-opposite, addresses-opposite,
}
use dorder.BoolFormula.Store.Frame.{Unshared, KeepsOthers}
use dorder.BoolFormula.Store.Neg.{neg-IsIn}

-- If no object is met twice in a formula and none of its literals is 0, `boolformula_neg` ends, and the
-- same objects then hold a formula that has the opposite value under every assignment; all other objects
-- are what they were. As many nested calls as the formula is deep are enough.
pub neg-Negated :
    (t : Placed) (s : Store) (fuel : ℕ)
    → IsIn s t
    → Unshared (addresses t)
    → HasLiterals (formula_of t)
    → height t ≤ fuel
    → (s' : Store) × (t' : Placed) × (neg fuel (root t) s ≡ done s')
      × (root t' ≡ root t)
      × (addresses t' ≡ addresses t)
      × IsIn s' t'
      × ((ρ : Assignment) → eval ρ (formula_of t') ≡ not (eval ρ (formula_of t)))
      × KeepsOthers s s' (addresses t)
neg-Negated t s fuel h un ls b =
    let (s', r, ins, same, kept) = neg-IsIn t s fuel h un b in
    (
      s',
      opposite t,
      r,
      root-opposite t,
      addresses-opposite t,
      ins,
      (λ ρ. ap (eval ρ) same ∙ eval-neg ρ (formula_of t) ls),
      kept,
    )
