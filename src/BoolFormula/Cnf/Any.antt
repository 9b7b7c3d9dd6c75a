-- ===== src/BoolFormula/Cnf/Any.antt =====
-- The disjunction's loop of `add_clauses_to_boolformula` in boolformula.c, piece by piece.
use dorder.Prelude.{
  ℕ, pos, negate, abs, ◌+◌, ◌≤◌, ◌<◌, ◌≡◌, refl, ap, sym, ◌∙◌, Bool, true, false, not, arith, inl,
  inr, ◌⊎◌,
}
use dorder.BoolFormula.{
  Lit, BoolFormula, Formulas, literal, disjunct, conjunct, nil, cons, append, num_of_var,
  num_of_vars,
}
use dorder.BoolFormula.Meaning.{
  Assignment, eval, eval_any, eval_all, eval_any-agree, eval_all-agree, num_of_vars-append,
  eval_all-intro, eval_all-head, eval_all-tail,
}
use dorder.BoolFormula.Cnf.Encodes.{
  AgreeTo, Encodes, EncodesAll, EncodesAny, assign, assign_self, assign_lt, append_left,
  append_right, append_both, all_agree, lit_agree, eval_neg, abs_neg,
}

any_agree :
    (σ ρ : Assignment) (fs : Formulas) (n : ℕ)
    → AgreeTo n σ ρ
    → num_of_vars fs ≤ n
    → eval_any σ fs ≡ eval_any ρ fs
any_agree σ ρ fs n h p = eval_any-agree σ ρ fs (λ v q. h v (omega arith))

any_cases :
    (ρ : Assignment) (f : BoolFormula) (fs : Formulas)
    → eval_any ρ (cons f fs) ≡ true
    → (eval ρ f ≡ true) ⊎ (eval_any ρ fs ≡ true)
unfolding eval
any_cases ρ f fs h = ground arith

any_head :
    (ρ : Assignment) (f : BoolFormula) (fs : Formulas)
    → eval ρ f ≡ true
    → eval_any ρ (cons f fs) ≡ true
unfolding eval
any_head ρ f fs h = rw h refl

any_tail :
    (ρ : Assignment) (f : BoolFormula) (fs : Formulas)
    → eval_any ρ fs ≡ true
    → eval_any ρ (cons f fs) ≡ true
unfolding eval
any_tail ρ f fs h = ground arith

any_cons :
    (σ ρ : Assignment) (f g : BoolFormula) (fs gs : Formulas)
    → eval σ f ≡ eval ρ g
    → eval_any σ fs ≡ eval_any ρ gs
    → eval_any σ (cons f fs) ≡ eval_any ρ (cons g gs)
unfolding eval
any_cons σ ρ f g fs gs p q = rw (p, q) refl

pub EncodesAny-nil : (next : ℕ) → EncodesAny nil next nil nil next
unfolding eval num_of_var
EncodesAny-nil next = record {
  grows = omega arith;
  lit_vars = omega arith;
  vars = omega arith;
  sound = λ ρ c h. h;
  complete = λ ρ. (ρ, λ v p. refl, refl, refl);
}

module _ (next : ℕ) (fs lits rest : Formulas) (last : ℕ) where
  pub EncodesAny-literal :
      (l : Lit)
      → abs l ≤ next
      → EncodesAny fs next lits rest last
      → EncodesAny (cons (literal l) fs) next (cons (literal l) lits) rest last
  EncodesAny-literal l p e = record {
    grows = e.grows;
    lit_vars = unfold num_of_var in omega (arith, e.grows, e.lit_vars);
    vars = e.vars;
    sound = λ ρ c h. elim (any_cases ρ (literal l) lits h) [
      | inl here ↦ any_head ρ (literal l) fs here
      | inr there ↦ any_tail ρ (literal l) fs (e.sound ρ c there)
    ];
    complete = λ ρ.
        let (σ, agree, value, c) = e.complete ρ in
        (
          σ,
          agree,
          any_cons σ ρ (literal l) (literal l) lits fs (unfold eval in lit_agree σ ρ l next agree p)
              value,
          c,
        );
  }

  pub EncodesAny-composite :
      (g : BoolFormula) (sub : Formulas) (mid : ℕ)
      → num_of_var g ≤ next
      → num_of_vars fs ≤ next
      → Encodes g (next + 1) sub mid
      → EncodesAny fs mid lits rest last
      → EncodesAny (cons g fs) next (cons (literal (pos (next + 1))) lits) (append sub rest) last
  EncodesAny-composite g sub mid pg pfs s e = record {
    grows = omega (arith, s.grows, e.grows);
    lit_vars = unfold num_of_var in omega (arith, s.grows, e.grows, e.lit_vars);
    vars = omega (arith, s.vars, e.grows, e.vars, num_of_vars-append sub rest);
    sound = λ ρ c h. elim (any_cases ρ (literal (pos (next + 1))) lits h) [
      | inl here ↦ any_head ρ g fs (s.sound ρ (append_left ρ sub rest c) (unfold eval in here))
      | inr there ↦ any_tail ρ g fs (e.sound ρ (append_right ρ sub rest c) there)
    ];
    complete = λ ρ.
        let (σ, agree, value, c) = s.complete ρ in
        let (τ, agree', value', c') = e.complete σ in
        (
          τ,
          λ v p. agree' v (omega (arith, s.grows)) ∙ agree v (omega arith),
          any_cons τ ρ (literal (pos (next + 1))) g lits fs
              (unfold eval in (agree' (next + 1) s.grows ∙ value))
              (value' ∙ any_agree σ ρ fs next (λ v p. agree v (omega arith)) pfs),
          append_both τ sub rest (all_agree τ σ sub mid agree' s.vars ∙ c) c',
        );
  }

-- A conjunction with the variable `n`, from the loop over its formulas.
pub Encodes-conjunct :
    (fs : Formulas) (n : ℕ) (clauses : Formulas) (last : ℕ)
    → num_of_vars fs < n
    → EncodesAll fs n n clauses last
    → Encodes (conjunct fs) n clauses last
Encodes-conjunct fs n clauses last below e = record {
  grows = e.grows;
  vars = e.vars;
  sound = λ ρ c h. unfold eval in e.sound ρ c h;
  complete = λ ρ.
      let set_ = assign ρ n (eval_all ρ fs) in
      let kept =
        λ (v : ℕ) (p : v ≤ num_of_vars fs). assign_lt ρ n v (eval_all ρ fs) (omega arith) in
      let (σ, agree, c) =
        e.complete set_
          (λ t. eval_all-agree set_ ρ fs kept ∙ (sym (assign_self ρ n (eval_all ρ fs)) ∙ t)) in
      (
        σ,
        λ v p. agree v (omega arith) ∙ assign_lt ρ n v (eval_all ρ fs) p,
        unfold eval in (agree n (omega arith) ∙ assign_self ρ n (eval_all ρ fs)),
        c,
      );
}

-- A disjunction with the variable `n`: the clause of the literals, and theirs.
pub Encodes-disjunct :
    (fs : Formulas) (n : ℕ) (lits clauses : Formulas) (last : ℕ)
    → num_of_vars fs < n
    → EncodesAny fs n lits clauses last
    → Encodes (disjunct fs) n (cons (disjunct (cons (literal (negate (pos n))) lits)) clauses) last
Encodes-disjunct fs n lits clauses last below e = record {
  grows = e.grows;
  vars = unfold num_of_var in omega (arith, e.grows, e.lit_vars, e.vars, abs_neg n);
  sound = λ ρ c h.
      let first = eval_all-head ρ name clauses c in
      let rest = eval_all-tail ρ name clauses c in
      unfold eval in
      e.sound ρ rest
        (resolve ρ h (any_cases ρ (literal (negate (pos n))) lits (unfold eval in first)));
  complete = λ ρ.
      let set_ = assign ρ n (eval_any ρ fs) in
      let kept =
        λ (v : ℕ) (p : v ≤ num_of_vars fs). assign_lt ρ n v (eval_any ρ fs) (omega arith) in
      let (σ, agree, value, c) = e.complete set_ in
      let name_value : σ n ≡ eval_any ρ fs =
        agree n (omega arith) ∙ assign_self ρ n (eval_any ρ fs) in
      let any_value = value ∙ eval_any-agree set_ ρ fs kept in
      (
        σ,
        λ v p. agree v (omega arith) ∙ assign_lt ρ n v (eval_any ρ fs) p,
        unfold eval in name_value,
        eval_all-intro σ name clauses (unfold eval in both (eval_any ρ fs) σ name_value any_value)
            c,
      );
}
  where
    name : BoolFormula
    name = disjunct (cons (literal (negate (pos n))) lits)

    resolve :
        (ρ : Assignment)
        → ρ n ≡ true
        → (eval ρ (literal (negate (pos n))) ≡ true) ⊎ (eval_any ρ lits ≡ true)
        → eval_any ρ lits ≡ true
    resolve ρ h (inl neg) =
        absurd (clash (ap not h) (sym (eval_neg ρ n (omega arith)) ∙ (unfold eval in neg)))
      where
        clash : {b : Bool} → b ≡ false → b ≡ true → ⊥
        clash p q = cc
    resolve ρ h (inr there) = there

    both :
        (b : Bool) (σ : Assignment)
        → σ n ≡ b
        → eval_any σ lits ≡ b
        → eval_any σ (cons (literal (negate (pos n))) lits) ≡ true
    both true σ p q = any_tail σ (literal (negate (pos n))) lits q
    both false σ p q =
        any_head σ (literal (negate (pos n))) lits
          (unfold eval in (eval_neg σ n (omega arith) ∙ ap not p))
