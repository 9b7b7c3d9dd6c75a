-- ===== src/BoolFormula/Access.antt =====
-- The functions of external/cdnfcore/boolformula.c that read a formula.
use dorder.Prelude.{ℕ, zero, suc, Option, none, some, Run, done, failed, checked}
use dorder.BoolFormula.{Lit, BoolFormula, Formulas, literal, disjunct, conjunct, nil, cons}

-- enum type
pub data FormulaType : Type 0 where
  type_disjunct type_conjunct type_literal : FormulaType

unfoldable pub get_type : BoolFormula → FormulaType
get_type (literal l) = type_literal
get_type (disjunct fs) = type_disjunct
get_type (conjunct fs) = type_conjunct

-- The length of the vector of subformulas, and the read at an index.
abbrev pub vector_length : Formulas → ℕ
vector_length nil = 0
vector_length (cons f fs) = suc (vector_length fs)

abbrev pub subformula? : Formulas → ℕ → Option BoolFormula
subformula? nil i = none
subformula? (cons f fs) zero = some f
subformula? (cons f fs) (suc i) = subformula? fs i

unfoldable pub get_length : BoolFormula → Run ℕ
get_length (literal l) = failed
get_length (disjunct fs) = done (vector_length fs)
get_length (conjunct fs) = done (vector_length fs)

unfoldable pub get_subformula : BoolFormula → ℕ → Run BoolFormula
get_subformula (literal l) i = failed
get_subformula (disjunct fs) i = checked (subformula? fs i)
get_subformula (conjunct fs) i = checked (subformula? fs i)

unfoldable pub get_value : BoolFormula → Run Lit
get_value (literal l) = done l
get_value (disjunct fs) = failed
get_value (conjunct fs) = failed
