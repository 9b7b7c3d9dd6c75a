-- ===== src/BoolFormula.antt =====
-- external/cdnfcore/boolformula.c: Boolean formulas as the trees that the pointers stand for.
-- A formula is a literal, or a vector of subformulas under `disjunct` or `conjunct`.
pub mod Meaning
pub mod Access
pub mod Store
pub mod Decimal
pub mod Print
pub mod Build
pub mod Cnf
use dorder.Prelude.{
  ℕ, zero, suc, ℤ, pos, negsuc, negate, abs, max, Bool, true, false, Run, done, ◌>>=◌, ◌>>◌, assert,
  ltb, not, if◌then◌else◌, ◌==◌,
}

-- A variable is a number from 1, and a literal a signed one.
abbrev pub Lit : Type 0
Lit = ℤ

mutual
  pub data BoolFormula : Type 0 where
    literal : Lit → BoolFormula
    disjunct : Formulas → BoolFormula
    conjunct : Formulas → BoolFormula

  pub data Formulas : Type 0 where
    nil : Formulas
    cons : BoolFormula → Formulas → Formulas

unfoldable pub lit_from_var : ℕ → Run Lit
lit_from_var v = do assert (ltb 0 v); done (pos v)

unfoldable pub var_from_lit : Lit → Run ℕ
var_from_lit l = do assert (not (abs l == 0)); done (abs l)

unfoldable pub lit_complement : Lit → Run Lit
lit_complement l = do assert (not (abs l == 0)); done (negate l)

-- l > 0
abbrev pub is_pos : Lit → Bool
is_pos (pos zero) = false
is_pos (pos (suc n)) = true
is_pos (negsuc n) = false

unfoldable pub positive_lit : Lit → Run Bool
positive_lit l = do assert (not (abs l == 0)); done (is_pos l)

abbrev pub append : Formulas → Formulas → Formulas
append nil gs = gs
append (cons f fs) gs = cons f (append fs gs)

-- `boolformula_copy`: each copy of a subformula is written at its index of a new vector.
unfoldable mutual
  pub copy : BoolFormula → BoolFormula
  copy (literal l) = literal l
  copy (disjunct fs) = disjunct (copy_all fs)
  copy (conjunct fs) = conjunct (copy_all fs)

  pub copy_all : Formulas → Formulas
  copy_all nil = nil
  copy_all (cons f fs) = cons (copy f) (copy_all fs)

-- `boolformula_num_of_var`: the largest variable, 0 if there is none.
unfoldable mutual
  pub num_of_var : BoolFormula → ℕ
  num_of_var (literal l) = abs l
  num_of_var (disjunct fs) = num_of_vars fs
  num_of_var (conjunct fs) = num_of_vars fs

  pub num_of_vars : Formulas → ℕ
  num_of_vars nil = 0
  num_of_vars (cons f fs) = max (num_of_var f) (num_of_vars fs)
