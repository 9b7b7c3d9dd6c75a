-- ===== src/Stubs/Access.antt =====
-- The bindings of cdnfp_stubs.c that read and print a formula. A wrapped pointer is the formula as a tree.
use dorder.Prelude.{
  ℕ, zero, suc, ◌<◌, ◌≡◌, refl, ap, sym, subst, ◌∙◌, Bool, true, false, not, List, some, Run, done,
  ◌>>=◌, ◌>>◌, assert, arith, ltb, lt→ltb,
}
use dorder.BoolFormula.{
  Lit, BoolFormula, Formulas, literal, disjunct, conjunct, nil, cons, append, num_of_var,
  lit_from_var, var_from_lit, lit_complement, positive_lit,
}
use dorder.BoolFormula.Access.{
  FormulaType, type_disjunct, type_conjunct, type_literal, get_type, get_length, get_subformula,
  get_value, vector_length, subformula?,
}
use dorder.BoolFormula.Print.{print}

abbrev pub is_literal : FormulaType → Bool
is_literal type_literal = true
is_literal _ = false

-- CDNFP_LIT, CDNFP_AND, CDNFP_OR
abbrev pub type_code : FormulaType → ℕ
type_code type_literal = 0
type_code type_conjunct = 1
type_code type_disjunct = 2

unfoldable pub ocaml_get_type : BoolFormula → ℕ
unfolding get_type
ocaml_get_type f = type_code (get_type f)

unfoldable pub ocaml_get_length : BoolFormula → Run ℕ
unfolding get_type get_length
ocaml_get_length f = do assert (not (is_literal (get_type f))); get_length f

unfoldable pub ocaml_get_boolformula : BoolFormula → ℕ → Run BoolFormula
unfolding get_type get_length get_subformula
ocaml_get_boolformula f idx = do
  assert (not (is_literal (get_type f)))
  size ← get_length f
  assert (ltb idx size)
  get_subformula f idx

unfoldable pub ocaml_get_literal : BoolFormula → Run Lit
unfolding get_type get_value
ocaml_get_literal f = do assert (is_literal (get_type f)); get_value f

unfoldable pub ocaml_lit_from_var : ℕ → Run Lit
unfolding lit_from_var
ocaml_lit_from_var v = lit_from_var v

unfoldable pub ocaml_var_from_lit : Lit → Run ℕ
unfolding var_from_lit
ocaml_var_from_lit l = var_from_lit l

unfoldable pub ocaml_lit_complement : Lit → Run Lit
unfolding lit_complement
ocaml_lit_complement l = lit_complement l

unfoldable pub ocaml_positive_lit : Lit → Run Bool
unfolding positive_lit
ocaml_positive_lit l = positive_lit l

unfoldable pub ocaml_num_vars : BoolFormula → ℕ
unfolding num_of_var
ocaml_num_vars f = num_of_var f

-- What it writes, for the digits that `%ld` writes for a literal.
unfoldable pub ocaml_print : (Lit → List ℕ) → BoolFormula → List ℕ
unfolding print
ocaml_print decimal f = print decimal f

-- `Array.init n (get_boolformula f)` of the OCaml side, from the index `i` on.
abbrev pub read_from : BoolFormula → ℕ → ℕ → Run Formulas
read_from f i zero = done nil
read_from f i (suc n) = do
  g ← ocaml_get_boolformula f i
  gs ← read_from f (suc i) n
  done (cons g gs)

-- All subformulas of a formula that is no literal.
abbrev pub subformulas : BoolFormula → Formulas
subformulas (literal l) = nil
subformulas (disjunct fs) = fs
subformulas (conjunct fs) = fs

subformula?-append :
    (fs : Formulas) (g : BoolFormula) (gs : Formulas)
    → subformula? (append fs (cons g gs)) (vector_length fs) ≡ some g
subformula?-append nil g gs = refl
subformula?-append (cons f fs) g gs = subformula?-append fs g gs

vector_length-append :
    (fs : Formulas) (g : BoolFormula) (gs : Formulas)
    → vector_length fs < vector_length (append fs (cons g gs))
vector_length-append nil g gs = omega arith
vector_length-append (cons f fs) g gs = omega (arith, vector_length-append fs g gs)

vector_length-concat :
    (fs : Formulas) (g : BoolFormula)
    → vector_length (append fs (cons g nil)) ≡ suc (vector_length fs)
vector_length-concat nil g = refl
vector_length-concat (cons f fs) g = ap suc (vector_length-concat fs g)

append_assoc :
    (fs : Formulas) (g : BoolFormula) (gs : Formulas)
    → append (append fs (cons g nil)) gs ≡ append fs (cons g gs)
append_assoc nil g gs = refl
append_assoc (cons f fs) g gs = ap (cons f) (append_assoc fs g gs)

-- What the reads need of a formula over the subformulas `all`.
record ReadsAs (f : BoolFormula) (all : Formulas) : Type 0 where
  read :
      (i : ℕ) (g : BoolFormula)
      → i < vector_length all
      → subformula? all i ≡ some g
      → ocaml_get_boolformula f i ≡ done g

read_from-done :
    (f : BoolFormula) (all fs gs : Formulas)
    → ReadsAs f all
    → append fs gs ≡ all
    → read_from f (vector_length fs) (vector_length gs) ≡ done gs
read_from-done f all fs nil r e = refl
read_from-done f all fs (cons g gs) r e =
    let here =
      r.read (vector_length fs) g
        (subst (λ t. vector_length fs < vector_length t) e (vector_length-append fs g gs))
        (ap (λ t. subformula? t (vector_length fs)) (sym e) ∙ subformula?-append fs g gs) in
    let rest = read_from-done f all (append fs (cons g nil)) gs r (append_assoc fs g gs ∙ e) in
    rw
      (
        here,
        subst (λ k. read_from f k (vector_length gs) ≡ done gs) (vector_length-concat fs g) rest,
      )
      refl

ReadsAs-disjunct : (fs : Formulas) → ReadsAs (disjunct fs) fs
unfolding ocaml_get_boolformula
ReadsAs-disjunct fs = record { read = λ i g p e. rw (lt→ltb i (vector_length fs) p, e) refl }

ReadsAs-conjunct : (fs : Formulas) → ReadsAs (conjunct fs) fs
unfolding ocaml_get_boolformula
ReadsAs-conjunct fs = record { read = λ i g p e. rw (lt→ltb i (vector_length fs) p, e) refl }

-- If ocaml_get_length returns n, reading at the indices from 0 to n, which is excluded, gives the
-- subformulas in their order.
ocaml_get_length-read :
    (f : BoolFormula) (n : ℕ) → ocaml_get_length f ≡ done n → read_from f 0 n ≡ done (subformulas f)
unfolding ocaml_get_length
ocaml_get_length-read (literal l) n e = cc
ocaml_get_length-read (disjunct fs) n e =
    subst (λ k. read_from (disjunct fs) 0 k ≡ done fs) (same (vector_length fs) n e)
      (read_from-done (disjunct fs) fs nil fs (ReadsAs-disjunct fs) refl)
  where
    same : (a b : ℕ) → done a ≡ done b → a ≡ b
    same a b p = cc
ocaml_get_length-read (conjunct fs) n e =
    subst (λ k. read_from (conjunct fs) 0 k ≡ done fs) (same (vector_length fs) n e)
      (read_from-done (conjunct fs) fs nil fs (ReadsAs-conjunct fs) refl)
  where
    same : (a b : ℕ) → done a ≡ done b → a ≡ b
    same a b p = cc
