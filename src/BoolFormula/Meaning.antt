-- ===== src/BoolFormula/Meaning.antt =====
-- What a formula of boolformula.c means: its value under an assignment of the variables.
use dorder.Prelude.{
  ℕ, suc, max, pos, negsuc, ◌≤◌, ◌≡◌, refl, ap, Bool, true, false, not, ◌&&◌, ◌||◌, arith,
}
use dorder.BoolFormula.{
  Lit, BoolFormula, Formulas, literal, disjunct, conjunct, nil, cons, append, copy, copy_all,
  num_of_var, num_of_vars,
}

abbrev pub Assignment : Type 0
Assignment = ℕ → Bool

abbrev pub eval_lit : Assignment → Lit → Bool
eval_lit ρ (pos n) = ρ n
eval_lit ρ (negsuc n) = not (ρ (suc n))

-- The empty disjunction is false, and the empty conjunction true.
unfoldable mutual
  pub eval : Assignment → BoolFormula → Bool
  eval ρ (literal l) = eval_lit ρ l
  eval ρ (disjunct fs) = eval_any ρ fs
  eval ρ (conjunct fs) = eval_all ρ fs

  pub eval_any : Assignment → Formulas → Bool
  eval_any ρ nil = false
  eval_any ρ (cons f fs) = eval ρ f || eval_any ρ fs

  pub eval_all : Assignment → Formulas → Bool
  eval_all ρ nil = true
  eval_all ρ (cons f fs) = eval ρ f && eval_all ρ fs

mutual
  unfolding copy

  copy-eq : (f : BoolFormula) → copy f ≡ f
  copy-eq (literal l) = refl
  copy-eq (disjunct fs) = ap disjunct (copy_all-eq fs)
  copy-eq (conjunct fs) = ap conjunct (copy_all-eq fs)

  copy_all-eq : (fs : Formulas) → copy_all fs ≡ fs
  copy_all-eq nil = refl
  copy_all-eq (cons f fs) = rw (copy-eq f, copy_all-eq fs)

pub eval_all-append :
    (ρ : Assignment) (fs gs : Formulas)
    → eval_all ρ (append fs gs) ≡ (eval_all ρ fs && eval_all ρ gs)
unfolding eval
eval_all-append ρ nil gs = refl
eval_all-append ρ (cons f fs) gs = ground (arith, eval_all-append ρ fs gs)

pub num_of_vars-append :
    (fs gs : Formulas) → num_of_vars (append fs gs) ≡ max (num_of_vars fs) (num_of_vars gs)
unfolding num_of_var
num_of_vars-append nil gs = omega arith
num_of_vars-append (cons f fs) gs = omega (arith, num_of_vars-append fs gs)

-- A copy stands for the same formula.
pub copy_lem : (f : BoolFormula) → copy f ≡ f
copy_lem f = copy-eq f

mutual
  unfolding eval num_of_var

  eval-agree_on :
      (ρ σ : Assignment) (f : BoolFormula)
      → ((v : ℕ) → v ≤ num_of_var f → ρ v ≡ σ v)
      → eval ρ f ≡ eval σ f
  eval-agree_on ρ σ (literal (pos n)) h = h n (omega arith)
  eval-agree_on ρ σ (literal (negsuc n)) h = ap not (h (suc n) (omega arith))
  eval-agree_on ρ σ (disjunct fs) h = eval_any-agree ρ σ fs h
  eval-agree_on ρ σ (conjunct fs) h = eval_all-agree ρ σ fs h

  pub eval_any-agree :
      (ρ σ : Assignment) (fs : Formulas)
      → ((v : ℕ) → v ≤ num_of_vars fs → ρ v ≡ σ v)
      → eval_any ρ fs ≡ eval_any σ fs
  eval_any-agree ρ σ nil h = refl
  eval_any-agree ρ σ (cons f fs) h = rw (
    eval-agree_on ρ σ f (λ v p. h v (omega arith)),
    eval_any-agree ρ σ fs (λ v p. h v (omega arith)),
  )

  pub eval_all-agree :
      (ρ σ : Assignment) (fs : Formulas)
      → ((v : ℕ) → v ≤ num_of_vars fs → ρ v ≡ σ v)
      → eval_all ρ fs ≡ eval_all σ fs
  eval_all-agree ρ σ nil h = refl
  eval_all-agree ρ σ (cons f fs) h = rw (
    eval-agree_on ρ σ f (λ v p. h v (omega arith)),
    eval_all-agree ρ σ fs (λ v p. h v (omega arith)),
  )

-- The value of a formula depends only on the variables up to `num_of_var`.
pub eval-agree :
    (ρ σ : Assignment) (f : BoolFormula)
    → ((v : ℕ) → v ≤ num_of_var f → ρ v ≡ σ v)
    → eval ρ f ≡ eval σ f
eval-agree ρ σ f h = eval-agree_on ρ σ f h

pub eval_all-intro :
    (ρ : Assignment) (f : BoolFormula) (fs : Formulas)
    → eval ρ f ≡ true
    → eval_all ρ fs ≡ true
    → eval_all ρ (cons f fs) ≡ true
unfolding eval
eval_all-intro ρ f fs p q = rw (p, q) refl

pub eval_all-head :
    (ρ : Assignment) (f : BoolFormula) (fs : Formulas)
    → eval_all ρ (cons f fs) ≡ true
    → eval ρ f ≡ true
unfolding eval
eval_all-head ρ f fs h = ground arith

pub eval_all-tail :
    (ρ : Assignment) (f : BoolFormula) (fs : Formulas)
    → eval_all ρ (cons f fs) ≡ true
    → eval_all ρ fs ≡ true
unfolding eval
eval_all-tail ρ f fs h = ground arith
