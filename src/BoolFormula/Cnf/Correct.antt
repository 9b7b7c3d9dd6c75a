-- ===== src/BoolFormula/Cnf/Correct.antt =====
-- `boolformula_to_cnf` of boolformula.c, as a whole: formulas and their clauses.
use dorder.Prelude.{ℕ, pos, negate, ◌+◌, ◌≤◌, ◌<◌, ◌≡◌, refl, sym, ◌∙◌, subst, true, arith, done}
use dorder.BoolFormula.{
  BoolFormula, Formulas, literal, disjunct, conjunct, nil, cons, append, num_of_var, num_of_vars,
}
use dorder.BoolFormula.Meaning.{
  Assignment, eval, eval_all, eval_all-intro, eval_all-head, eval_all-tail,
}
use dorder.BoolFormula.Cnf.{
  add_clauses, conjunct_loop, disjunct_loop, clause, to_cnf, to_cnf_composite,
}
use dorder.BoolFormula.Cnf.Encodes.{
  Encodes, EncodesAll, EncodesAny, EncodesAll-nil, EncodesAll-literal, EncodesAll-composite,
}
use dorder.BoolFormula.Cnf.Any.{
  EncodesAny-nil, EncodesAny-literal, EncodesAny-composite, Encodes-conjunct, Encodes-disjunct,
}

abbrev Encoded : BoolFormula → ℕ → Type 0
Encoded f n =
    (clauses : Formulas) × (last : ℕ) × (add_clauses f n ≡ done (clauses, last))
    × Encodes f n clauses last

abbrev EncodedAll : Formulas → ℕ → ℕ → Type 0
EncodedAll fs cur next =
    (clauses : Formulas) × (last : ℕ) × (conjunct_loop fs cur next ≡ done (clauses, last))
    × EncodesAll fs cur next clauses last

abbrev EncodedAny : Formulas → ℕ → Type 0
EncodedAny fs next =
    (lits : Formulas) × (clauses : Formulas) × (last : ℕ) × (disjunct_loop fs next
      ≡ done (lits, clauses, last))
    × EncodesAny fs next lits clauses last

finish_conjunct :
    (fs : Formulas) (n : ℕ) → num_of_vars fs < n → EncodedAll fs n n → Encoded (conjunct fs) n
unfolding add_clauses
finish_conjunct fs n below (cs, last, e, r) = (cs, last, e, Encodes-conjunct fs n cs last below r)

finish_disjunct :
    (fs : Formulas) (n : ℕ) → num_of_vars fs < n → EncodedAny fs n → Encoded (disjunct fs) n
unfolding add_clauses
finish_disjunct fs n below (lits, cs, last, e, r) = (
  cons (disjunct (cons (literal (negate (pos n))) lits)) cs,
  last,
  rw e refl,
  Encodes-disjunct fs n lits cs last below r,
)

mutual
  unfolding add_clauses num_of_var

  encode_all :
      (fs : Formulas) (cur next : ℕ) → num_of_vars fs < cur → cur ≤ next → EncodedAll fs cur next
  encode_all nil cur next below p = (nil, next, refl, EncodesAll-nil cur next)
  encode_all (cons (literal l) fs) cur next below p =
      let (rest, last, e, r) = encode_all fs cur next (omega arith) p in
      (
        cons (clause (negate (pos cur)) l) rest,
        last,
        rw e refl,
        EncodesAll-literal cur next (omega arith) p fs rest last l (omega arith) r,
      )
  encode_all (cons (conjunct gs) fs) cur next below p =
      let (sub, mid, e, r) =
        finish_conjunct gs (next + 1) (omega arith)
          (encode_all gs (next + 1) (next + 1) (omega arith) (omega arith)) in
      let (rest, last, e', r') = encode_all fs cur mid (omega arith) (omega (arith, r.grows)) in
      (
        cons (clause (negate (pos cur)) (pos (next + 1))) (append sub rest),
        last,
        rw (e, e') refl,
        EncodesAll-composite cur next (omega arith) p fs rest last (conjunct gs) sub mid
            (omega arith) (omega arith) r r',
      )
  encode_all (cons (disjunct gs) fs) cur next below p =
      let (sub, mid, e, r) =
        finish_disjunct gs (next + 1) (omega arith) (encode_any gs (next + 1) (omega arith)) in
      let (rest, last, e', r') = encode_all fs cur mid (omega arith) (omega (arith, r.grows)) in
      (
        cons (clause (negate (pos cur)) (pos (next + 1))) (append sub rest),
        last,
        rw (e, e') refl,
        EncodesAll-composite cur next (omega arith) p fs rest last (disjunct gs) sub mid
            (omega arith) (omega arith) r r',
      )

  encode_any : (fs : Formulas) (next : ℕ) → num_of_vars fs ≤ next → EncodedAny fs next
  encode_any nil next p = (nil, nil, next, refl, EncodesAny-nil next)
  encode_any (cons (literal l) fs) next p =
      let (lits, rest, last, e, r) = encode_any fs next (omega arith) in
      (
        cons (literal l) lits,
        rest,
        last,
        rw e refl,
        EncodesAny-literal next fs lits rest last l (omega arith) r,
      )
  encode_any (cons (conjunct gs) fs) next p =
      let (sub, mid, e, r) =
        finish_conjunct gs (next + 1) (omega arith)
          (encode_all gs (next + 1) (next + 1) (omega arith) (omega arith)) in
      let (lits, rest, last, e', r') = encode_any fs mid (omega (arith, r.grows)) in
      (
        cons (literal (pos (next + 1))) lits,
        append sub rest,
        last,
        rw (e, e') refl,
        EncodesAny-composite next fs lits rest last (conjunct gs) sub mid (omega arith)
            (omega arith) r r',
      )
  encode_any (cons (disjunct gs) fs) next p =
      let (sub, mid, e, r) =
        finish_disjunct gs (next + 1) (omega arith) (encode_any gs (next + 1) (omega arith)) in
      let (lits, rest, last, e', r') = encode_any fs mid (omega (arith, r.grows)) in
      (
        cons (literal (pos (next + 1))) lits,
        append sub rest,
        last,
        rw (e, e') refl,
        EncodesAny-composite next fs lits rest last (disjunct gs) sub mid (omega arith)
            (omega arith) r r',
      )

-- `boolformula_to_cnf` returns a formula of which every model is one of `f`, and that some model
-- satisfies that agrees with any given model of `f` on the variables up to `num_var`.
pub record IsCnfOf (f : BoolFormula) (num_var : ℕ) (g : BoolFormula) : Type 0 where
  pub sound : (ρ : Assignment) → eval ρ g ≡ true → eval ρ f ≡ true
  pub complete :
      (ρ : Assignment)
      → eval ρ f ≡ true
      → (σ : Assignment) × ((v : ℕ) → v ≤ num_var → σ v ≡ ρ v) × (eval σ g ≡ true)

composite :
    (f : BoolFormula) (n : ℕ)
    → Encoded f (n + 1)
    → (g : BoolFormula) × (to_cnf_composite f n ≡ done g) × IsCnfOf f n g
unfolding to_cnf_composite
composite f n (cs, last, e, r) = (
  conjunct (cons name cs),
  rw e refl,
  record {
    sound = λ ρ h.
        let all : eval_all ρ (cons name cs) ≡ true = unfold eval in h in
        r.sound ρ (eval_all-tail ρ name cs all) (unfold eval in eval_all-head ρ name cs all);
    complete = λ ρ h.
        let (σ, agree, value, c) = r.complete ρ in
        (
          σ,
          λ v p. agree v (omega arith),
          unfold eval in eval_all-intro σ name cs (unfold eval in (value ∙ h)) c,
        );
  },
)
  where
    name : BoolFormula
    name = literal (pos (n + 1))

-- For a formula over the variables up to `num_var`, `boolformula_to_cnf` returns, and its result
-- is satisfied exactly where the formula is, up to the choice of the variables above `num_var`.
pub to_cnf-IsCnfOf :
    (f : BoolFormula) (num_var : ℕ)
    → num_of_var f ≤ num_var
    → (g : BoolFormula) × (to_cnf f num_var ≡ done g) × IsCnfOf f num_var g
unfolding to_cnf num_of_var
to_cnf-IsCnfOf (literal l) n below =
    (literal l, refl, record { sound = λ ρ h. h; complete = λ ρ h. (ρ, λ v p. refl, h) })
to_cnf-IsCnfOf (conjunct fs) n below = composite (conjunct fs) n (
    finish_conjunct fs (n + 1) (omega arith)
      (encode_all fs (n + 1) (n + 1) (omega arith) (omega arith)))
to_cnf-IsCnfOf (disjunct fs) n below =
    composite (disjunct fs) n
      (finish_disjunct fs (n + 1) (omega arith) (encode_any fs (n + 1) (omega arith)))

-- If `boolformula_to_cnf` returns `g` for a formula over the variables up to `num_var`, every model
-- of `g` is a model of the formula.
pub to_cnf_sound :
    (f g : BoolFormula) (num_var : ℕ) (ρ : Assignment)
    → num_of_var f ≤ num_var
    → to_cnf f num_var ≡ done g
    → eval ρ g ≡ true
    → eval ρ f ≡ true
to_cnf_sound f g n ρ below e h =
    let (g', e', c) = to_cnf-IsCnfOf f n below in
    c.sound ρ (subst (λ k. eval ρ k ≡ true) (same g g' (sym e ∙ e')) h)
  where
    same : (a b : BoolFormula) → done a ≡ done b → a ≡ b
    same a b p = cc

-- For a formula over the variables up to `num_var` and a model of it, `boolformula_to_cnf` returns
-- a formula that has a model with the same values of these variables.
pub to_cnf_complete :
    (f : BoolFormula) (num_var : ℕ) (ρ : Assignment)
    → num_of_var f ≤ num_var
    → eval ρ f ≡ true
    → (g : BoolFormula) × (σ : Assignment) × (to_cnf f num_var ≡ done g)
      × (eval σ g ≡ true)
      × ((v : ℕ) → v ≤ num_var → σ v ≡ ρ v)
to_cnf_complete f n ρ below h =
    let (g, e, c) = to_cnf-IsCnfOf f n below in
    let (σ, agree, m) = c.complete ρ h in (g, σ, e, m, agree)
