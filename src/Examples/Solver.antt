-- ===== src/Examples/Solver.antt =====
-- minisat_stubs.cc with a solver for small sets of clauses in the place of MiniSat: it tries the
-- assignment that is true everywhere.
use dorder.Prelude.{
  ℕ, suc, ◌+◌, ◌*◌, ◌/◌, ◌%◌, Bool, true, false, not, ◌&&◌, ◌||◌, List, [], ◌∷◌, Option, none, some,
  done, ◌≡◌, refl, All, inl, inr, ◌==◌, arith, if◌then◌else◌,
}
use dorder.Minisat.{
  Minisat, minisat2_solve_with_assumption, minisat2_add_clause, minisat2_new_var, minisat2_simplify,
  minisat2_pos_lit, minisat2_neg_lit,
}
use dorder.Minisat.Library.{Signed, AnyOf, Documented, FindsModels}
use dorder.Minisat.Wrappers.{
  Event, create, command, finalise, Histories, histories, events, events-histories,
}
use dorder.Minisat.Session.{
  Command, variable, clause, simplification, clauses_of, run, IsReported, solve-IsReported,
}

-- The number of variables, and the clauses.
abbrev Clauses : Type 0
Clauses = ℕ × List (List Signed)

abbrev lit_code : Signed → ℕ
lit_code (v, true) = 2 * v + 1
lit_code (v, false) = 2 * v

abbrev lit_of_code : ℕ → Signed
lit_of_code n = (n / 2, n % 2 == 1)

lit_of_code-lit_code : (l : Signed) → lit_of_code (lit_code l) ≡ l
lit_of_code-lit_code (v, true) =
    pair ((2 * v + 1) / 2) v ((2 * v + 1) % 2 == 1) true (omega arith) (ground arith)
  where
    pair : (a b : ℕ) (c d : Bool) → a ≡ b → c ≡ d → ◌≡◌ {A = Signed} (a, c) (b, d)
    pair a b c d e f = cc
lit_of_code-lit_code (v, false) =
    pair ((2 * v) / 2) v ((2 * v) % 2 == 1) false (omega arith) (ground arith)
  where
    pair : (a b : ℕ) (c d : Bool) → a ≡ b → c ≡ d → ◌≡◌ {A = Signed} (a, c) (b, d)
    pair a b c d e f = cc

abbrev solver : (Clauses → List Signed → Bool) → Minisat
solver test = record {
  Solver = Clauses;
  Lit = Signed;
  LBool = ℕ;
  mk_lit = λ v negative. (v, negative);
  to_int = lit_code;
  to_lit = lit_of_code;
  sign = λ l. l.1;
  var = λ l. l.0;
  l_true = 0;
  l_false = 1;
  l_undef = 2;
  same = λ a b. a == b;
  new_solver = (0, []);
  new_var = λ s polarity dvar. (s.0, (suc s.0, s.1));
  add_clause = λ s c. (true, (s.0, c ∷ s.1));
  simplify = λ s. (true, s);
  solve = λ s assumed. (test s assumed, s);
  model = λ s v. some 0;
  n_vars = λ s. s.0;
  okay = λ s. true;
}

abbrev documented : (test : Clauses → List Signed → Bool) → Documented (solver test)
documented test = record {
  clauses = λ s. s.1;
  Plain = λ s. Unit;
  to_lit-to_int = lit_of_code-lit_code;
  new_clauses = refl;
  new_Plain = tt;
  var_clauses = λ s b. refl;
  var_Plain = λ s b p. tt;
  add_clauses = λ s c. refl;
  add_Plain = λ s c p. tt;
  simplify_clauses = λ s. refl;
  simplify_Plain = λ s p. tt;
  false_is = (refl, refl);
  true_is = refl;
}

abbrev some_positive : List Signed → Bool
some_positive [] = false
some_positive ((v, negative) ∷ c) = not negative || some_positive c

abbrev all_positive : List Signed → Bool
all_positive [] = true
all_positive ((v, negative) ∷ c) = not negative && all_positive c

abbrev each_positive : List (List Signed) → Bool
each_positive [] = true
each_positive (c ∷ cs) = some_positive c && each_positive cs

abbrev IsPositive : Signed → Type 0
IsPositive l = l.1 ≡ false

some_positive-AnyOf : (c : List Signed) → some_positive c ≡ true → AnyOf IsPositive c
some_positive-AnyOf [] e = cc
some_positive-AnyOf ((v, false) ∷ c) e = inl refl
some_positive-AnyOf ((v, true) ∷ c) e = inr (some_positive-AnyOf c e)

all_positive-All : (c : List Signed) → all_positive c ≡ true → All IsPositive c
all_positive-All [] e = tt
all_positive-All ((v, false) ∷ c) e = (refl, all_positive-All c e)
all_positive-All ((v, true) ∷ c) e = cc

each_positive-All : (cs : List (List Signed)) → each_positive cs ≡ true → All (AnyOf IsPositive) cs
each_positive-All [] e = tt
each_positive-All (c ∷ cs) e = (
  some_positive-AnyOf c (left (some_positive c) (each_positive cs) e),
  each_positive-All cs (right (some_positive c) (each_positive cs) e),
)
  where
    left : (a b : Bool) → (a && b) ≡ true → a ≡ true
    left a b h = ground arith

    right : (a b : Bool) → (a && b) ≡ true → b ≡ true
    right a b h = ground arith

abbrev try_true : Clauses → List Signed → Bool
try_true s assumed = each_positive s.1 && all_positive assumed

finds : FindsModels (solver try_true) (documented try_true)
finds = record {
  holds_in = λ s l. IsPositive l;
  value_at = value;
  solved = λ s s' assumed p e. (
    each_positive-All s.1 (both s assumed s' e).0,
    all_positive-All assumed (both s assumed s' e).1,
  );
}
  where
    value :
        (s : Clauses) (v : ℕ) (negative : Bool)
        → negative ≡ false
        → ◌≡◌ {A = Option ℕ} (some 0) (some (if negative then 1 else 0))
    value s v negative h = rw h refl

    both :
        (s : Clauses) (assumed : List Signed) (s' : Clauses)
        → ◌≡◌ {A = Bool × Clauses} (try_true s assumed, s) (true, s')
        → (each_positive s.1 ≡ true) × (all_positive assumed ≡ true)
    both s assumed s' e =
        split (each_positive s.1) (all_positive assumed) (first (try_true s assumed) s true s' e)
      where
        first :
            (a : Bool) (s : Clauses) (b : Bool) (t : Clauses)
            → ◌≡◌ {A = Bool × Clauses} (a, s) (b, t)
            → a ≡ b
        first a s b t e = cc

        split : (a b : Bool) → (a && b) ≡ true → (a ≡ true) × (b ≡ true)
        split a b h = ground arith

abbrev commands : List Command
commands =
    variable
    ∷ variable
    ∷ clause ((0, true) ∷ (1, false) ∷ [])
    ∷ simplification
    ∷ clause ((0, false) ∷ [])
    ∷ []

solve-IsReported_example :
    All
      (AnyOf
        (IsReported (solver try_true) (2, ((0, false) ∷ []) ∷ ((0, true) ∷ (1, false) ∷ []) ∷ [])))
      (clauses_of commands)
    × All
        (IsReported (solver try_true) (2, ((0, false) ∷ []) ∷ ((0, true) ∷ (1, false) ∷ []) ∷ []))
        ((1, false) ∷ [])
unfolding run minisat2_solve_with_assumption minisat2_add_clause minisat2_new_var minisat2_simplify
    minisat2_pos_lit minisat2_neg_lit
solve-IsReported_example =
    solve-IsReported (solver try_true) (documented try_true) finds commands ((1, false) ∷ [])
      (2, ((0, false) ∷ []) ∷ ((0, true) ∷ (1, false) ∷ []) ∷ []) refl

-- Two solvers; the first gets a clause, the wrapper of the second is finalised.
abbrev two_solvers : List Event
two_solvers =
    create
    ∷ create
    ∷ command 0 variable
    ∷ command 1 variable
    ∷ command 0 (clause ((0, false) ∷ []))
    ∷ finalise 1
    ∷ []

abbrev left_over : Histories
left_over = some (variable ∷ clause ((0, false) ∷ []) ∷ []) ∷ none ∷ []

histories-two_solvers : histories two_solvers [] ≡ done left_over
unfolding histories
histories-two_solvers = refl

events-histories_example :
    events (solver try_true) two_solvers [] ≡ done (some (1, ((0, false) ∷ []) ∷ []) ∷ none ∷ [])
unfolding run minisat2_add_clause minisat2_new_var minisat2_pos_lit
events-histories_example =
    events-histories (solver try_true) refl two_solvers [] left_over histories-two_solvers
