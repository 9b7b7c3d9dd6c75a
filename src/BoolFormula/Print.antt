-- ===== src/BoolFormula/Print.antt =====
-- `boolformula_print` of boolformula.c. What it writes to the standard error is its result, as a list
-- of bytes; the digits that `%ld` writes for a literal are the parameter `decimal`.
pub mod Composite
pub mod Injective
use dorder.Prelude.{ℕ, List, [], ◌∷◌, ◌++◌, codes}
use dorder.BoolFormula.{Lit, BoolFormula, Formulas, literal, disjunct, conjunct, nil, cons}

module _ (decimal : Lit → List ℕ) where
  unfoldable mutual
    pub print : BoolFormula → List ℕ
    print (literal l) = decimal l
    print (disjunct nil) = codes "{ F }"
    print (disjunct (cons f fs)) =
        codes "{ " ++ (print_loop (codes " | ") (print f) fs ++ codes " }")
    print (conjunct nil) = codes "{ T }"
    print (conjunct (cons f fs)) =
        codes "{ " ++ (print_loop (codes " & ") (print f) fs ++ codes " }")

    -- The loop, at a subformula that prints as `text`, with the subformulas after it: each but the
    -- last has a separator behind it.
    pub print_loop : List ℕ → List ℕ → Formulas → List ℕ
    print_loop separator text nil = text
    print_loop separator text (cons g gs) = text ++ (separator ++ print_loop separator (print g) gs)
