-- ===== src/Minisat.antt =====
-- learning/cdnf/minisat_stubs.cc: the bindings by which OCaml calls the MiniSat library. The library
-- is a parameter; variables and the codes of literals are numbers.
pub mod Library
pub mod Session
pub mod Wrappers
use dorder.Prelude.{
  ℕ, Bool, true, false, List, [], ◌∷◌, ◌++◌, Option, Run, done, failed, ◌>>=◌, ◌>>◌, assert,
  checked, codes, ◌==◌, if◌then◌else◌,
}

-- The functions of MiniSat that the bindings call. `l_true`, `l_false` and `l_undef` are the values
-- of its type `lbool`, compared by `same`; a call with side effects returns the solver, too.
pub record Minisat : Type 1 where
  pub Solver : Type 0
  pub Lit : Type 0
  pub LBool : Type 0
  pub mk_lit : ℕ → Bool → Lit
  pub to_int : Lit → ℕ
  pub to_lit : ℕ → Lit
  pub sign : Lit → Bool
  pub var : Lit → ℕ
  pub l_true : LBool
  pub l_false : LBool
  pub l_undef : LBool
  pub same : LBool → LBool → Bool
  pub new_solver : Solver
  pub new_var : Solver → Bool → Bool → ℕ × Solver
  pub add_clause : Solver → List Lit → Bool × Solver
  pub simplify : Solver → Bool × Solver
  pub solve : Solver → List Lit → Bool × Solver
  pub model : Solver → ℕ → Option LBool
  pub n_vars : Solver → ℕ
  pub okay : Solver → Bool

-- value_t of minisat.ml: FALSE, TRUE, UNKNOWN
pub data Value : Type 0 where
  value_false value_true value_unknown : Value

module _ (lib : Minisat) where
  open lib use {
    Solver, Lit, mk_lit, to_int, to_lit, sign, var, l_true, l_false, l_undef, same, new_solver,
    new_var, add_clause, simplify, solve, model, n_vars, okay,
  }

  -- Pushes the literals of an array on a vector.
  unfoldable pub convert_literals : List ℕ → List Lit → List Lit
  convert_literals [] r = r
  convert_literals (l ∷ ls) r = convert_literals ls (r ++ to_lit l ∷ [])

  -- What it writes, for the digits that `%d` writes for a variable. Nothing calls it.
  unfoldable print_clause : (ℕ → List ℕ) → List Lit → List ℕ
  print_clause decimal [] = []
  print_clause decimal (l ∷ c) =
      (if sign l then codes "-" else [])
      ++ (decimal (var l) ++ (codes " " ++ print_clause decimal c))

  unfoldable pub minisat2_new_solver : Run Solver
  minisat2_new_solver = do assert (n_vars new_solver == 0); done new_solver

  -- The defaults of `newVar` are true and true.
  unfoldable pub minisat2_new_var : Solver → ℕ × Solver
  minisat2_new_var s = new_var s true true

  unfoldable pub minisat2_new_inferred_var : Solver → ℕ × Solver
  minisat2_new_inferred_var s = new_var s true false

  unfoldable pub minisat2_pos_lit : ℕ → ℕ
  minisat2_pos_lit v = to_int (mk_lit v false)

  unfoldable pub minisat2_neg_lit : ℕ → ℕ
  minisat2_neg_lit v = to_int (mk_lit v true)

  unfoldable pub minisat2_add_clause : Solver → List ℕ → Solver
  unfolding convert_literals
  minisat2_add_clause s c = (add_clause s (convert_literals c [])).1

  unfoldable pub minisat2_simplify : Solver → Solver
  minisat2_simplify s = (simplify s).1

  -- `solve ()` is `solve` without assumptions.
  unfoldable pub minisat2_solve : Solver → Bool × Solver
  minisat2_solve s = solve s []

  unfoldable pub minisat2_solve_with_assumption : Solver → List ℕ → Bool × Solver
  unfolding convert_literals
  minisat2_solve_with_assumption s a = solve s (convert_literals a [])

  unfoldable pub minisat2_value_of : Solver → ℕ → Run Value
  minisat2_value_of s v = do
    value ← checked (model s v)
    if same value l_false
        then done value_false
        else if same value l_true
        then done value_true
        else if same value l_undef
        then done value_unknown
        else failed

  unfoldable pub minisat2_nvars : Solver → ℕ
  minisat2_nvars s = n_vars s

  unfoldable pub minisat2_okay : Solver → Bool
  minisat2_okay s = okay s
