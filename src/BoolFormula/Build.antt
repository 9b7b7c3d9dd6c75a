-- ===== src/BoolFormula/Build.antt =====
-- The functions of external/cdnfcore/boolformula.c that build a formula, and the formula with the opposite
-- value, which `boolformula_neg` of Store is compared with: that function changes objects in place.
use dorder.Prelude.{
  suc, zero, false, ◌<◌, pos, negsuc, negate, abs, ◌≡◌, refl, ap, Bool, not, Run, done, failed,
  arith, max, ◌&&◌, ◌||◌,
}
use dorder.BoolFormula.{
  Lit, BoolFormula, Formulas, literal, disjunct, conjunct, nil, cons, append, num_of_var,
}
use dorder.BoolFormula.Meaning.{
  eval_all-append, num_of_vars-append, Assignment, eval, eval_any, eval_all,
}

abbrev pub disjunction_unit : BoolFormula
disjunction_unit = disjunct nil

abbrev pub conjunction_unit : BoolFormula
conjunction_unit = conjunct nil

abbrev pub literal_new : Lit → BoolFormula
literal_new l = literal l

-- `boolformula_add`: `g` as the last subformula of `f`.
unfoldable pub add : BoolFormula → BoolFormula → Run BoolFormula
add (literal l) g = failed
add (disjunct fs) g = done (disjunct (append fs (cons g nil)))
add (conjunct fs) g = done (conjunct (append fs (cons g nil)))

-- Each connective is replaced by the other one, and each literal by its complement.
unfoldable mutual
  pub neg : BoolFormula → BoolFormula
  neg (literal l) = literal (negate l)
  neg (disjunct fs) = conjunct (neg_all fs)
  neg (conjunct fs) = disjunct (neg_all fs)

  pub neg_all : Formulas → Formulas
  neg_all nil = nil
  neg_all (cons f fs) = cons (neg f) (neg_all fs)

-- No literal is `NOT_A_LITERAL`, which is 0.
unfoldable mutual
  pub HasLiterals : BoolFormula → Type 0
  HasLiterals (literal l) = 0 < abs l
  HasLiterals (disjunct fs) = AllHaveLiterals fs
  HasLiterals (conjunct fs) = AllHaveLiterals fs

  pub AllHaveLiterals : Formulas → Type 0
  AllHaveLiterals nil = Unit
  AllHaveLiterals (cons f fs) = HasLiterals f × AllHaveLiterals fs

not-not : (b : Bool) → not (not b) ≡ b
not-not b = ground arith

mutual
  unfolding eval neg HasLiterals

  neg_value : (ρ : Assignment) (f : BoolFormula) → HasLiterals f → eval ρ (neg f) ≡ not (eval ρ f)
  neg_value ρ (literal (pos zero)) h = absurd (omega arith)
  neg_value ρ (literal (pos (suc n))) h = refl
  neg_value ρ (literal (negsuc n)) h = ground arith
  neg_value ρ (disjunct fs) h = neg_any ρ fs h
  neg_value ρ (conjunct fs) h = neg_every ρ fs h

  neg_any :
      (ρ : Assignment) (fs : Formulas)
      → AllHaveLiterals fs
      → eval_all ρ (neg_all fs) ≡ not (eval_any ρ fs)
  neg_any ρ nil h = refl
  neg_any ρ (cons f fs) h = ground (arith, neg_value ρ f h.0, neg_any ρ fs h.1)

  neg_every :
      (ρ : Assignment) (fs : Formulas)
      → AllHaveLiterals fs
      → eval_any ρ (neg_all fs) ≡ not (eval_all ρ fs)
  neg_every ρ nil h = refl
  neg_every ρ (cons f fs) h = ground (arith, neg_value ρ f h.0, neg_every ρ fs h.1)

mutual
  unfolding neg

  neg_twice : (f : BoolFormula) → neg (neg f) ≡ f
  neg_twice (literal (pos zero)) = refl
  neg_twice (literal (pos (suc n))) = refl
  neg_twice (literal (negsuc n)) = refl
  neg_twice (disjunct fs) = ap disjunct (neg_all_twice fs)
  neg_twice (conjunct fs) = ap conjunct (neg_all_twice fs)

  neg_all_twice : (fs : Formulas) → neg_all (neg_all fs) ≡ fs
  neg_all_twice nil = refl
  neg_all_twice (cons f fs) = rw (neg_twice f, neg_all_twice fs) refl

-- The negation of a formula none of whose literals is 0 has the opposite value under every
-- assignment.
pub eval-neg : (ρ : Assignment) (f : BoolFormula) → HasLiterals f → eval ρ (neg f) ≡ not (eval ρ f)
eval-neg ρ f h = neg_value ρ f h

-- Negating twice restores the formula.
neg-neg : (f : BoolFormula) → neg (neg f) ≡ f
neg-neg f = neg_twice f

eval_any-append :
    (ρ : Assignment) (fs gs : Formulas)
    → eval_any ρ (append fs gs) ≡ (eval_any ρ fs || eval_any ρ gs)
unfolding eval
eval_any-append ρ nil gs = refl
eval_any-append ρ (cons f fs) gs = ground (arith, eval_any-append ρ fs gs)

same_formula : (f g : BoolFormula) → done f ≡ done g → f ≡ g
same_formula f g e = cc

-- What a formula joins its subformulas by, for two values.
abbrev pub joined : BoolFormula → Bool → Bool → Bool
joined (literal l) a b = false
joined (disjunct fs) a b = a || b
joined (conjunct fs) a b = a && b

-- If `boolformula_add` of `g` to `f` returns `h`, then under every assignment `h` has the value of
-- `f` or `g` where `f` is a disjunction, and that of `f` and `g` where it is a conjunction; and its
-- largest variable is the larger one of theirs.
eval-add :
    (ρ : Assignment) (f g h : BoolFormula)
    → add f g ≡ done h
    → (eval ρ h ≡ joined f (eval ρ f) (eval ρ g))
      × (num_of_var h ≡ max (num_of_var f) (num_of_var g))
unfolding add eval num_of_var
eval-add ρ (literal l) g h e = cc
eval-add ρ (disjunct fs) g h e = rw (← same_formula _ h e) (
  ground (arith, eval_any-append ρ fs (cons g nil)),
  omega (arith, num_of_vars-append fs (cons g nil)),
)
eval-add ρ (conjunct fs) g h e = rw (← same_formula _ h e) (
  ground (arith, eval_all-append ρ fs (cons g nil)),
  omega (arith, num_of_vars-append fs (cons g nil)),
)
