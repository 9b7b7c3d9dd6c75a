-- ===== src/BoolFormula/Cnf/Encodes.antt =====
-- What the clauses appended by the loops of boolformula.c encode, and how the pieces compose.
use dorder.Prelude.{
  ℕ, zero, suc, pos, negsuc, negate, abs, ◌+◌, ◌≤◌, ◌<◌, max, ◌≡◌, refl, ap, sym, ◌∙◌, Bool, true,
  false, not, ◌||◌, arith, if◌then◌else◌, ◌==◌, ==_refl,
}
use dorder.BoolFormula.{
  Lit, BoolFormula, Formulas, literal, nil, cons, append, num_of_var, num_of_vars,
}
use dorder.BoolFormula.Meaning.{
  Assignment, eval_lit, eval, eval_any, eval_all, eval_all-agree, eval_all-append,
  num_of_vars-append, eval_all-intro, eval_all-head, eval_all-tail,
}
use dorder.BoolFormula.Cnf.{clause}

-- `σ` has the values of `ρ` up to the variable `n`.
abbrev pub AgreeTo : ℕ → Assignment → Assignment → Type 0
AgreeTo n σ ρ = (v : ℕ) → v ≤ n → σ v ≡ ρ v

-- An assignment with one variable changed.
abbrev pub assign : Assignment → ℕ → Bool → Assignment
assign ρ n b = λ v. if v == n then b else ρ v

pub assign_self : (ρ : Assignment) (n : ℕ) (b : Bool) → assign ρ n b n ≡ b
assign_self ρ n b = rw (==_refl n)

pub assign_lt : (ρ : Assignment) (n v : ℕ) (b : Bool) → v < n → assign ρ n b v ≡ ρ v
assign_lt ρ n v b h = ground arith

-- The clauses say of a formula with the variable `n` that it holds where `n` does, and the
-- variables from `n` to `last` can be chosen so that `n` has its value.
pub record Encodes (f : BoolFormula) (n : ℕ) (clauses : Formulas) (last : ℕ) : Type 0 where
  pub grows : n ≤ last
  pub vars : num_of_vars clauses ≤ last
  pub sound : (ρ : Assignment) → eval_all ρ clauses ≡ true → ρ n ≡ true → eval ρ f ≡ true
  pub complete :
      (ρ : Assignment)
      → (σ : Assignment) × ((v : ℕ) → v < n → σ v ≡ ρ v)
        × (σ n ≡ eval ρ f)
        × (eval_all σ clauses ≡ true)

-- The same of all formulas of a conjunction with the variable `cur`.
pub record EncodesAll (fs : Formulas) (cur next : ℕ) (clauses : Formulas) (last : ℕ) : Type 0 where
  pub grows : next ≤ last
  pub vars : num_of_vars clauses ≤ last
  pub sound : (ρ : Assignment) → eval_all ρ clauses ≡ true → ρ cur ≡ true → eval_all ρ fs ≡ true
  pub complete :
      (ρ : Assignment)
      → (ρ cur ≡ true → eval_all ρ fs ≡ true)
      → (σ : Assignment) × AgreeTo next σ ρ × (eval_all σ clauses ≡ true)

-- And of the formulas of a disjunction with the literals that stand for them.
pub record EncodesAny (fs : Formulas) (next : ℕ) (lits clauses : Formulas) (last : ℕ) : Type 0 where
  pub grows : next ≤ last
  pub lit_vars : num_of_vars lits ≤ last
  pub vars : num_of_vars clauses ≤ last
  pub sound :
      (ρ : Assignment) → eval_all ρ clauses ≡ true → eval_any ρ lits ≡ true → eval_any ρ fs ≡ true
  pub complete :
      (ρ : Assignment)
      → (σ : Assignment) × AgreeTo next σ ρ
        × (eval_any σ lits ≡ eval_any ρ fs)
        × (eval_all σ clauses ≡ true)

pub eval_neg : (ρ : Assignment) (n : ℕ) → 0 < n → eval_lit ρ (negate (pos n)) ≡ not (ρ n)
eval_neg ρ zero h = absurd (omega arith)
eval_neg ρ (suc n) h = refl

pub abs_neg : (n : ℕ) → abs (negate (pos n)) ≡ n
abs_neg zero = refl
abs_neg (suc n) = refl

implies : (a b : Bool) → (a ≡ true → b ≡ true) → (not a || (b || false)) ≡ true
implies true b h = rw (h refl)
implies false b h = refl

-- A clause of two literals says that the first variable implies the second literal.
clause-true :
    (ρ : Assignment) (n : ℕ) (l : Lit)
    → 0 < n
    → (ρ n ≡ true → eval_lit ρ l ≡ true)
    → eval ρ (clause (negate (pos n)) l) ≡ true
unfolding eval
clause-true ρ n l p h = rw (eval_neg ρ n p) (implies (ρ n) (eval_lit ρ l) h)

clause_use :
    (ρ : Assignment) (n : ℕ) (l : Lit)
    → 0 < n
    → eval ρ (clause (negate (pos n)) l) ≡ true
    → ρ n ≡ true
    → eval_lit ρ l ≡ true
unfolding eval
clause_use ρ n l p h e = ground (arith, eval_neg ρ n)

vars_clause : (n : ℕ) (l : Lit) → num_of_var (clause (negate (pos n)) l) ≡ max n (abs l)
unfolding num_of_var
vars_clause n l = omega (arith, abs_neg n)

pub lit_agree :
    (σ ρ : Assignment) (l : Lit) (n : ℕ) → AgreeTo n σ ρ → abs l ≤ n → eval_lit σ l ≡ eval_lit ρ l
lit_agree σ ρ (pos k) n h p = h k p
lit_agree σ ρ (negsuc k) n h p = ap not (h (suc k) p)

-- Clauses over variables up to `n` keep their value.
pub all_agree :
    (σ ρ : Assignment) (fs : Formulas) (n : ℕ)
    → AgreeTo n σ ρ
    → num_of_vars fs ≤ n
    → eval_all σ fs ≡ eval_all ρ fs
all_agree σ ρ fs n h p = eval_all-agree σ ρ fs (λ v q. h v (omega arith))

pub append_left :
    (ρ : Assignment) (fs gs : Formulas) → eval_all ρ (append fs gs) ≡ true → eval_all ρ fs ≡ true
append_left ρ fs gs h = ground (arith, eval_all-append ρ fs gs)

pub append_right :
    (ρ : Assignment) (fs gs : Formulas) → eval_all ρ (append fs gs) ≡ true → eval_all ρ gs ≡ true
append_right ρ fs gs h = ground (arith, eval_all-append ρ fs gs)

pub append_both :
    (ρ : Assignment) (fs gs : Formulas)
    → eval_all ρ fs ≡ true
    → eval_all ρ gs ≡ true
    → eval_all ρ (append fs gs) ≡ true
append_both ρ fs gs p q = rw (eval_all-append ρ fs gs, p, q) refl

pub EncodesAll-nil : (cur next : ℕ) → EncodesAll nil cur next nil next
unfolding eval num_of_var
EncodesAll-nil cur next = record {
  grows = omega arith;
  vars = omega arith;
  sound = λ ρ c h. refl;
  complete = λ ρ h. (ρ, λ v p. refl, refl);
}

module _ (cur next : ℕ) (positive : 0 < cur) (below : cur ≤ next) (fs rest : Formulas)
    (last : ℕ) where
  pub EncodesAll-literal :
      (l : Lit)
      → abs l ≤ next
      → EncodesAll fs cur next rest last
      → EncodesAll (cons (literal l) fs) cur next (cons (clause (negate (pos cur)) l) rest) last
  EncodesAll-literal l p e = record {
    grows = e.grows;
    vars = unfold num_of_var in omega (arith, e.grows, e.vars, vars_clause cur l);
    sound = λ ρ c h.
        eval_all-intro ρ (literal l) fs
          (unfold eval in
            clause_use ρ cur l positive (eval_all-head ρ (clause (negate (pos cur)) l) rest c) h)
          (e.sound ρ (eval_all-tail ρ (clause (negate (pos cur)) l) rest c) h);
    complete = λ ρ h.
        let (σ, agree, c) = e.complete ρ (λ t. eval_all-tail ρ (literal l) fs (h t)) in
        (
          σ,
          agree,
          eval_all-intro σ (clause (negate (pos cur)) l) rest
              (clause-true σ cur l positive
                (λ t. lit_agree σ ρ l next agree p ∙ lit_holds ρ (h (sym (agree cur below) ∙ t))))
              c,
        );
  }
    where
      lit_holds : (ρ : Assignment) → eval_all ρ (cons (literal l) fs) ≡ true → eval_lit ρ l ≡ true
      lit_holds ρ h = unfold eval in eval_all-head ρ (literal l) fs h

  pub EncodesAll-composite :
      (g : BoolFormula) (sub : Formulas) (mid : ℕ)
      → num_of_var g ≤ next
      → num_of_vars fs ≤ next
      → Encodes g (next + 1) sub mid
      → EncodesAll fs cur mid rest last
      → EncodesAll
          (cons g fs)
          cur
          next
          (cons (clause (negate (pos cur)) (pos (next + 1))) (append sub rest))
          last
  EncodesAll-composite g sub mid pg pfs s e = record {
    grows = omega (arith, s.grows, e.grows);
    vars =
        unfold num_of_var in
        omega (
          arith,
          s.grows,
          s.vars,
          e.grows,
          e.vars,
          vars_clause cur (pos (next + 1)),
          num_of_vars-append sub rest,
        );
    sound = λ ρ c h.
        let both = eval_all-tail ρ name (append sub rest) c in
        eval_all-intro ρ g fs
          (s.sound ρ (append_left ρ sub rest both) (
            clause_use ρ cur (pos (next + 1)) positive (eval_all-head ρ name (append sub rest) c)
              h))
          (e.sound ρ (append_right ρ sub rest both) h);
    complete = λ ρ h.
        let (σ, agree, value, c) = s.complete ρ in
        let rest_holds = λ (t : σ cur ≡ true).
          all_agree σ ρ fs next (λ v p. agree v (omega arith)) pfs
          ∙ eval_all-tail ρ g fs (h (sym (agree cur (omega arith)) ∙ t)) in
        let (τ, agree', c') = e.complete σ rest_holds in
        (
          τ,
          λ v p. agree' v (omega (arith, s.grows)) ∙ agree v (omega arith),
          eval_all-intro τ name (append sub rest)
              (clause-true τ cur (pos (next + 1)) positive (λ t.
                agree' (next + 1) s.grows
                ∙ value
                ∙ eval_all-head ρ g fs
                    (h (sym (agree' cur (omega (arith, s.grows)) ∙ agree cur (omega arith)) ∙ t))))
              (append_both τ sub rest (all_agree τ σ sub mid agree' s.vars ∙ c) c'),
        );
  }
    where
      name : BoolFormula
      name = clause (negate (pos cur)) (pos (next + 1))
