-- ===== src/Examples/Printing.antt =====
-- The printing functions of boolformula.c and cdnfformula.c, with numbers in unary in the place of what
-- `%ld` writes.
use dorder.Prelude.{
  ℕ, zero, suc, ◌≤◌, ◌<◌, ◌≡◌, refl, sym, ap, ◌∙◌, List, [], ◌∷◌, All, ◌⊎◌, inl, inr, pos, negsuc,
  done, arith, length, codes,
}
use dorder.BoolFormula.{Lit, BoolFormula, literal, disjunct, conjunct, nil, cons}
use dorder.BoolFormula.Decimal.{IsDecimal, tail_eq}
use dorder.BoolFormula.Print as FormulaText
use dorder.BoolFormula.Print.Composite.{IsBranching}
use dorder.BoolFormula.Print.Injective.{boolformula_print_injective}
use dorder.CdnfFormula.{Conjunction}
use dorder.CdnfFormula.Print as CdnfText
use dorder.CdnfFormula.Print.Texts.{cdnfformula_print_injective}

abbrev ones : ℕ → List ℕ
ones zero = []
ones (suc n) = b'1' ∷ ones n

-- 0 with a one for each step from it.
abbrev unary : Lit → List ℕ
unary (pos n) = b'0' ∷ ones n
unary (negsuc n) = b'-' ∷ ones n

abbrev IsSymbol : ℕ → Type 0
IsSymbol c = (c ≡ b'-') ⊎ ((b'0' ≤ c) × (c ≤ b'9'))

ones-symbols : (n : ℕ) → All IsSymbol (ones n)
ones-symbols zero = tt
ones-symbols (suc n) = (inr (omega arith, omega arith), ones-symbols n)

unary-symbols : (l : Lit) → All IsSymbol (unary l)
unary-symbols (pos n) = (inr (omega arith, omega arith), ones-symbols n)
unary-symbols (negsuc n) = (inl refl, ones-symbols n)

unary-not_empty : (l : Lit) → 0 < length (unary l)
unary-not_empty (pos n) = omega arith
unary-not_empty (negsuc n) = omega arith

length-ones : (n : ℕ) → length (ones n) ≡ n
length-ones zero = refl
length-ones (suc n) = ap suc (length-ones n)

ones_injective : (n k : ℕ) → ones n ≡ ones k → n ≡ k
ones_injective n k e = sym (length-ones n) ∙ (ap length e ∙ length-ones k)

unary_injective : (l k : Lit) → unary l ≡ unary k → l ≡ k
unary_injective (pos n) (pos k) e =
    ap pos (ones_injective n k (tail_eq b'0' b'0' (ones n) (ones k) e))
unary_injective (pos n) (negsuc k) e = cc
unary_injective (negsuc n) (pos k) e = cc
unary_injective (negsuc n) (negsuc k) e =
    ap negsuc (ones_injective n k (tail_eq b'-' b'-' (ones n) (ones k) e))

unary-IsDecimal : IsDecimal unary
unary-IsDecimal = record {
  digits = unary-symbols;
  some_digit = unary-not_empty;
  injective = unary_injective;
}

-- (x₁ ∧ ¬x₂) ∨ x₃, with an empty disjunction beside it.
abbrev formula : Conjunction
formula = ((pos 1 ∷ negsuc 1 ∷ []) ∷ (pos 3 ∷ []) ∷ []) ∷ [] ∷ []

cdnfformula_print_injective_example :
    (text : List ℕ) × (CdnfText.print unary formula ≡ done text)
    × ((g : Conjunction) → CdnfText.print unary g ≡ done text → formula ≡ g)
cdnfformula_print_injective_example = cdnfformula_print_injective unary unary-IsDecimal formula

print-one :
    FormulaText.print unary (disjunct (cons (literal (pos 2)) (cons (literal (negsuc 0)) nil)))
    ≡ codes "{ 011 | - }"
unfolding FormulaText.print
print-one = refl

abbrev branching : BoolFormula
branching = disjunct (cons (literal (pos 2)) (cons (conjunct nil) nil))

boolformula_print_injective_example : branching ≡ branching
unfolding IsBranching
boolformula_print_injective_example =
    boolformula_print_injective unary unary-IsDecimal branching branching (tt, tt, tt) (tt, tt, tt)
      refl
