-- ===== src/Examples/Formulas.antt =====
-- Formulas of boolformula.c and cdnfformula.c: the theorems at x₁ ∨ (x₂ ∧ ¬x₁), and at monomials of
-- three bits.
use dorder.Prelude.{ℕ, zero, suc, ◌≡◌, ◌≤◌, refl, true, false, [], ◌∷◌, done, pos, negsuc, arith}
use dorder.Bits.{Bits, value_of}
use dorder.BoolFormula.{BoolFormula, literal, disjunct, conjunct, nil, cons, num_of_var}
use dorder.BoolFormula.Meaning.{Assignment, eval}
use dorder.BoolFormula.Build.{add}
use dorder.BoolFormula.Cnf.{to_cnf}
use dorder.BoolFormula.Cnf.Correct.{to_cnf_sound, to_cnf_complete}
use dorder.CdnfFormula.{Disjunction, monomial_m_dnf, eval_m_dnf, to_boolformula}
use dorder.CdnfFormula.Meaning.{
  holds_disjunction, holds_conjunction, eval_m_dnf-done, eval-to_boolformula,
}
use dorder.CdnfFormula.Mdnf.{variables, monomial_m_dnf-done}

abbrev choice : BoolFormula
choice = disjunct (
    cons (literal (pos 1))
      (cons (conjunct (cons (literal (pos 2)) (cons (literal (negsuc 0)) nil))) nil))

-- The clauses for it: x₃, then ¬x₃ ∨ x₁ ∨ x₄, ¬x₄ ∨ x₂, ¬x₄ ∨ ¬x₁.
abbrev choice_cnf : BoolFormula
choice_cnf = conjunct (
    cons (literal (pos 3)) (
      cons
        (disjunct (cons (literal (negsuc 2)) (cons (literal (pos 1)) (cons (literal (pos 4)) nil))))
        (cons (disjunct (cons (literal (negsuc 3)) (cons (literal (pos 2)) nil)))
          (cons (disjunct (cons (literal (negsuc 3)) (cons (literal (negsuc 0)) nil))) nil))))

to_cnf-choice : to_cnf choice 2 ≡ done choice_cnf
unfolding to_cnf
to_cnf-choice = refl

-- Only x₂ is set.
abbrev second : Assignment
second v = elim v [
  | zero ↦ false
  | suc k ↦ elim k [ zero ↦ false | suc j ↦ elim j [ zero ↦ true | suc i ↦ true ] ]
]

vars_choice : num_of_var choice ≤ 2
unfolding num_of_var
vars_choice = omega arith

holds_choice : eval second choice ≡ true
unfolding eval
holds_choice = refl

holds_cnf : eval second choice_cnf ≡ true
unfolding eval
holds_cnf = refl

to_cnf_sound_example : eval second choice ≡ true
to_cnf_sound_example = to_cnf_sound choice choice_cnf 2 second vars_choice to_cnf-choice holds_cnf

to_cnf_complete_example :
    (g : BoolFormula) × (σ : Assignment) × (to_cnf choice 2 ≡ done g)
    × (eval σ g ≡ true)
    × ((v : ℕ) → v ≤ 2 → σ v ≡ second v)
to_cnf_complete_example = to_cnf_complete choice 2 second vars_choice holds_choice

-- choice ∨ x₃
abbrev larger : BoolFormula
larger = disjunct (
    cons (literal (pos 1)) (
      cons (conjunct (cons (literal (pos 2)) (cons (literal (negsuc 0)) nil)))
        (cons (literal (pos 3)) nil)))

add-choice : add choice (literal (pos 3)) ≡ done larger
unfolding add
add-choice = refl

-- x₂ ∧ ¬x₁, or x₁
abbrev sample : Disjunction
sample = (pos 2 ∷ negsuc 0 ∷ []) ∷ (pos 1 ∷ []) ∷ []

abbrev bits : Bits
bits = false ∷ false ∷ true ∷ []

eval_m_dnf-done_example : eval_m_dnf sample bits ≡ done (holds_disjunction (value_of bits) sample)
eval_m_dnf-done_example = eval_m_dnf-done sample bits (omega arith)

eval_m_dnf_test : eval_m_dnf sample bits ≡ done true
unfolding eval_m_dnf
eval_m_dnf_test = refl

eval-to_boolformula_example :
    eval second (to_boolformula (sample ∷ [])) ≡ holds_conjunction second (sample ∷ [])
eval-to_boolformula_example = eval-to_boolformula second (sample ∷ [])

monomial_m_dnf-done_example : monomial_m_dnf bits ≡ done (variables 2 (value_of bits))
monomial_m_dnf-done_example = monomial_m_dnf-done 2 2 bits refl (omega arith) (omega arith) refl
