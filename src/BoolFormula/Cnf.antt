-- ===== src/BoolFormula/Cnf.antt =====
-- `boolformula_to_cnf` and `add_clauses_to_boolformula` of external/cdnfcore/boolformula.c. What a
-- call appends to the vector of the result is returned as the list of the clauses appended.
pub mod Encodes
pub mod Any
pub mod Correct
use dorder.Prelude.{ℕ, zero, suc, pos, negate, ◌+◌, Run, done, failed, ◌>>=◌}
use dorder.BoolFormula.{
  Lit, BoolFormula, Formulas, literal, disjunct, conjunct, nil, cons, append, copy,
}

-- The disjunction of two literals.
abbrev pub clause : Lit → Lit → BoolFormula
clause l k = disjunct (cons (literal l) (cons (literal k) nil))

-- `next` is `*next_fresh` at the call, and the number returned its value after it. The variable of
-- the formula itself is `next` at the call of `add_clauses`, `cur` in the two loops. On a literal
-- the program exits.
unfoldable mutual
  pub add_clauses : BoolFormula → ℕ → Run (Formulas × ℕ)
  add_clauses (literal l) next = failed
  add_clauses (conjunct fs) next = conjunct_loop fs next next
  add_clauses (disjunct fs) next = do
    (lits, clauses, next') ← disjunct_loop fs next
    done (cons (disjunct (cons (literal (negate (pos next))) lits)) clauses, next')

  -- One clause for each subformula, in front of the clauses of the subformula.
  pub conjunct_loop : Formulas → ℕ → ℕ → Run (Formulas × ℕ)
  conjunct_loop nil cur next = done (nil, next)
  conjunct_loop (cons (literal l) fs) cur next = do
    (rest, next') ← conjunct_loop fs cur next
    done (cons (clause (negate (pos cur)) l) rest, next')
  conjunct_loop (cons (disjunct gs) fs) cur next = do
    (sub, next') ← add_clauses (disjunct gs) (next + 1)
    (rest, next'') ← conjunct_loop fs cur next'
    done (cons (clause (negate (pos cur)) (pos (next + 1))) (append sub rest), next'')
  conjunct_loop (cons (conjunct gs) fs) cur next = do
    (sub, next') ← add_clauses (conjunct gs) (next + 1)
    (rest, next'') ← conjunct_loop fs cur next'
    done (cons (clause (negate (pos cur)) (pos (next + 1))) (append sub rest), next'')

  -- The literals of the one clause, and the clauses of the subformulas.
  pub disjunct_loop : Formulas → ℕ → Run (Formulas × Formulas × ℕ)
  disjunct_loop nil next = done (nil, nil, next)
  disjunct_loop (cons (literal l) fs) next = do
    (lits, clauses, next') ← disjunct_loop fs next
    done (cons (literal l) lits, clauses, next')
  disjunct_loop (cons (disjunct gs) fs) next = do
    (sub, next') ← add_clauses (disjunct gs) (next + 1)
    (lits, clauses, next'') ← disjunct_loop fs next'
    done (cons (literal (pos (next + 1))) lits, append sub clauses, next'')
  disjunct_loop (cons (conjunct gs) fs) next = do
    (sub, next') ← add_clauses (conjunct gs) (next + 1)
    (lits, clauses, next'') ← disjunct_loop fs next'
    done (cons (literal (pos (next + 1))) lits, append sub clauses, next'')

-- The result for a conjunction or a disjunction.
unfoldable pub to_cnf_composite : BoolFormula → ℕ → Run BoolFormula
unfolding add_clauses
to_cnf_composite f num_var = do
  (clauses, next) ← add_clauses f (num_var + 1)
  done (conjunct (cons (literal (pos (num_var + 1))) clauses))

unfoldable pub to_cnf : BoolFormula → ℕ → Run BoolFormula
unfolding to_cnf_composite copy
to_cnf (literal l) num_var = done (copy (literal l))
to_cnf (disjunct fs) num_var = to_cnf_composite (disjunct fs) num_var
to_cnf (conjunct fs) num_var = to_cnf_composite (conjunct fs) num_var
