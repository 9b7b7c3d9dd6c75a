-- ===== src/CdnfFormula.antt =====
-- external/cdnfcore/cdnfformula.c: monomials, disjunctions and conjunctions as lists of what the
-- vectors hold. The vectors themselves are the module Vector.
pub mod Meaning
pub mod Mdnf
pub mod Print
pub mod Vectors
pub mod Store
use dorder.Prelude.{
  ℕ, zero, suc, pos, Bool, true, false, not, xor, List, [], ◌∷◌, ◌++◌, Run, done, failed, ◌>>=◌,
  ◌>>◌, assert, ltb, ◌==◌, abs, length, if◌then◌else◌,
}
use dorder.Bits.{Bits, get}
use dorder.BoolFormula.{
  Lit, BoolFormula, Formulas, literal, disjunct, conjunct, nil, cons, var_from_lit, positive_lit,
}

abbrev pub Monomial : Type 0
Monomial = List Lit

abbrev pub Disjunction : Type 0
Disjunction = List Monomial

abbrev pub Conjunction : Type 0
Conjunction = List Disjunction

unfoldable pub monomial_add : Monomial → Lit → Run Monomial
monomial_add m l = do assert (not (abs l == 0)); done (m ++ l ∷ [])

-- The loop of `cdnfformula_monomial_M_DNF` at the index `i`.
unfoldable pub m_dnf_loop : ℕ → Bits → Monomial → Run Monomial
unfolding monomial_add
m_dnf_loop zero bv m = done m
m_dnf_loop (suc i) bv m = do
  b ← get bv (suc i)
  m' ← if b then monomial_add m (pos (suc i)) else done m
  m_dnf_loop i bv m'

-- The index of the last bit. Of an empty vector it wraps around, and the first read is out of
-- bounds.
abbrev pub last_index : Bits → Run ℕ
last_index [] = failed
last_index (b ∷ bv) = done (length bv)

-- `cdnfformula_monomial_M_DNF`: the conjunction of the variables that are set.
unfoldable pub monomial_m_dnf : Bits → Run Monomial
unfolding m_dnf_loop
monomial_m_dnf bv = do i ← last_index bv; m ← m_dnf_loop i bv []; assert (ltb 0 (length m)); done m

unfoldable pub eval_monomial : Monomial → Bits → Run Bool
unfolding var_from_lit positive_lit
eval_monomial [] bv = done true
eval_monomial (l ∷ m) bv = do
  v ← var_from_lit l
  assert (ltb 0 v)
  assert (ltb v (length bv))
  p ← positive_lit l
  b ← get bv v
  let rest = eval_monomial m bv
  if xor p b then done false else rest

unfoldable pub eval_m_dnf : Disjunction → Bits → Run Bool
unfolding eval_monomial
eval_m_dnf [] bv = done false
eval_m_dnf (m ∷ ms) bv = do
  b ← eval_monomial m bv
  let rest = eval_m_dnf ms bv
  if b then done true else rest

-- The three loops that build a formula: index by index, a vector of the same length.
unfoldable pub literals_of : Monomial → Formulas
literals_of [] = nil
literals_of (l ∷ m) = cons (literal l) (literals_of m)

unfoldable pub monomial_to_boolformula : Monomial → BoolFormula
unfolding literals_of
monomial_to_boolformula m = conjunct (literals_of m)

unfoldable pub monomials_of : Disjunction → Formulas
unfolding monomial_to_boolformula
monomials_of [] = nil
monomials_of (m ∷ ms) = cons (monomial_to_boolformula m) (monomials_of ms)

unfoldable pub dnf_to_boolformula : Disjunction → BoolFormula
unfolding monomials_of
dnf_to_boolformula f = disjunct (monomials_of f)

unfoldable pub disjunctions_of : Conjunction → Formulas
unfolding dnf_to_boolformula
disjunctions_of [] = nil
disjunctions_of (d ∷ ds) = cons (dnf_to_boolformula d) (disjunctions_of ds)

unfoldable pub to_boolformula : Conjunction → BoolFormula
unfolding disjunctions_of
to_boolformula f = conjunct (disjunctions_of f)
