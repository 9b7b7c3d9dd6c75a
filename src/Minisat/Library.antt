-- ===== src/Minisat/Library.antt =====
-- What MiniSat documents of the functions that the bindings of minisat_stubs.cc call.
use dorder.Prelude.{ℕ, Bool, true, false, not, List, [], ◌∷◌, some, ◌≡◌, All, ◌⊎◌, if◌then◌else◌}
use dorder.Minisat.{Minisat, Value, value_true, value_false}

-- A literal of a clause: its variable, and whether it is negative.
abbrev pub Signed : Type 0
Signed = ℕ × Bool

abbrev pub AnyOf {ℓ} : {A : Type ℓ} → (A → Type 0) → List A → Type 0
AnyOf P [] = ⊥
AnyOf P (x ∷ xs) = P x ⊎ AnyOf P xs

-- The value that makes a literal true.
abbrev pub wanted : Bool → Value
wanted negative = if negative then value_false else value_true

abbrev pub Satisfies : (ℕ → Bool) → Signed → Type 0
Satisfies ρ (v, negative) = ρ v ≡ not negative

-- What MiniSat documents of literals and of the clauses of a solver, which are a ghost; a solver is
-- plain if all its variables may be decided.
pub record Documented (lib : Minisat) : Type 1 where
  pub clauses : lib.Solver → List (List lib.Lit)
  pub Plain : lib.Solver → Type 0
  pub to_lit-to_int : (l : lib.Lit) → lib.to_lit (lib.to_int l) ≡ l
  pub new_clauses : clauses lib.new_solver ≡ []
  pub new_Plain : Plain lib.new_solver
  pub var_clauses : (s : lib.Solver) (b : Bool) → clauses (lib.new_var s b true).1 ≡ clauses s
  pub var_Plain : (s : lib.Solver) (b : Bool) → Plain s → Plain (lib.new_var s b true).1
  pub add_clauses :
      (s : lib.Solver) (c : List lib.Lit) → clauses (lib.add_clause s c).1 ≡ c ∷ clauses s
  pub add_Plain : (s : lib.Solver) (c : List lib.Lit) → Plain s → Plain (lib.add_clause s c).1
  pub simplify_clauses : (s : lib.Solver) → clauses (lib.simplify s).1 ≡ clauses s
  pub simplify_Plain : (s : lib.Solver) → Plain s → Plain (lib.simplify s).1
  pub false_is :
      (lib.same lib.l_false lib.l_false ≡ true) × (lib.same lib.l_true lib.l_false ≡ false)
  pub true_is : lib.same lib.l_true lib.l_true ≡ true

-- `solve` returns true: the model makes a literal of each clause true, and all assumptions.
pub record FindsModels (lib : Minisat) (d : Documented lib) : Type 1 where
  pub holds_in : lib.Solver → lib.Lit → Type 0
  pub value_at :
      (s : lib.Solver) (v : ℕ) (negative : Bool)
      → holds_in s (lib.mk_lit v negative)
      → lib.model s v ≡ some (if negative then lib.l_false else lib.l_true)
  pub solved :
      (s s' : lib.Solver) (assumed : List lib.Lit)
      → d.Plain s
      → lib.solve s assumed ≡ (true, s')
      → All (AnyOf (holds_in s')) (d.clauses s) × All (holds_in s') assumed

-- `solve` returns false: no assignment satisfies the clauses and the assumptions.
pub record Refutes (lib : Minisat) (d : Documented lib) : Type 1 where
  pub holds_under : (ℕ → Bool) → lib.Lit → Type 0
  pub value_under :
      (ρ : ℕ → Bool) (v : ℕ) (negative : Bool)
      → Satisfies ρ (v, negative)
      → holds_under ρ (lib.mk_lit v negative)
  pub refuted :
      (s s' : lib.Solver) (assumed : List lib.Lit)
      → lib.solve s assumed ≡ (false, s')
      → (ρ : ℕ → Bool) → All (AnyOf (holds_under ρ)) (d.clauses s)
      → All (holds_under ρ) assumed
      → ⊥
