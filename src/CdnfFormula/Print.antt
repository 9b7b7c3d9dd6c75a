-- ===== src/CdnfFormula/Print.antt =====
-- The printing functions of cdnfformula.c. What they write to the standard error is their result, as
-- a list of bytes; the decimal digits that `%ld` writes for a literal are the parameter `decimal`.
pub mod Unique
pub mod Texts
use dorder.Prelude.{
  ℕ, zero, suc, ◌-◌, List, [], ◌∷◌, ◌++◌, Run, done, ◌>>=◌, checked, length, get_elem?, codes, Bool,
  true, false, ◌==◌, if◌then◌else◌,
}
use dorder.BoolFormula.{Lit}
use dorder.CdnfFormula.{Monomial, Disjunction, Conjunction}

module _ {A : Type 0} (print : A → Run (List ℕ)) where
  -- The loop from the index `i` down to 1, with a separator after each element.
  unfoldable pub print_down : List ℕ → List A → ℕ → Run (List ℕ)
  print_down separator v zero = done []
  print_down separator v (suc i) = do
    x ← checked (get_elem? v (suc i))
    text ← print x
    rest ← print_down separator v i
    done (text ++ (separator ++ rest))

  -- The elements of a vector that is not empty: the loop from the last, and the element at index 0.
  unfoldable pub print_elements : List ℕ → List A → Run (List ℕ)
  unfolding print_down
  print_elements separator v = do
    before ← print_down separator v (length v - 1)
    x ← checked (get_elem? v 0)
    text ← print x
    done (before ++ text)

module _ (decimal : Lit → List ℕ) where
  unfoldable pub monomial_to_string : Monomial → Run (List ℕ)
  unfolding print_elements
  monomial_to_string m = if length m == 0 then done (codes "( T )") else (do
    text ← print_elements (λ l. done (decimal l)) (codes " & ") m
    done (codes "( " ++ (text ++ codes "  )")))

  unfoldable pub disjunction_to_string : Disjunction → Run (List ℕ)
  unfolding print_elements monomial_to_string
  disjunction_to_string f = if length f == 0 then done (codes "[ F ]") else (do
    text ← print_elements monomial_to_string (codes " | ") f
    done (codes "[ " ++ (text ++ codes " ]")))

  -- `cdnfformula_print`
  unfoldable pub print : Conjunction → Run (List ℕ)
  unfolding print_elements disjunction_to_string
  print f = if length f == 0 then done (codes "{ T }") else (do
    text ← print_elements disjunction_to_string (codes " & ") f
    done (codes "{ " ++ (text ++ codes " }\n")))
