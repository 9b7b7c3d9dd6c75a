-- ===== src/Minisat/Session.antt =====
-- Sessions with a solver through the bindings of minisat_stubs.cc.
use dorder.Prelude.{
  ℕ, Bool, true, false, List, [], ◌∷◌, ◌++◌, map, done, ◌≡◌, refl, sym, ap, ◌∙◌, subst, All,
  All-imp, inl, inr, if◌then◌else◌,
}
use mathlib.Core.List.{append_assoc, append-nil}
use dorder.Minisat.{
  Minisat, convert_literals, minisat2_pos_lit, minisat2_neg_lit, minisat2_new_var,
  minisat2_add_clause, minisat2_simplify, minisat2_solve_with_assumption, minisat2_value_of,
}
use dorder.Minisat.Library.{Signed, AnyOf, wanted, Satisfies, Documented, FindsModels, Refutes}

-- What OCaml code does before it solves.
pub data Command : Type 0 where
  variable simplification : Command
  clause : List Signed → Command

abbrev pub clauses_of : List Command → List (List Signed)
clauses_of [] = []
clauses_of (variable ∷ cs) = clauses_of cs
clauses_of (simplification ∷ cs) = clauses_of cs
clauses_of (clause c ∷ cs) = c ∷ clauses_of cs

module _ (lib : Minisat) where
  -- The code of a literal, as OCaml code gets it.
  abbrev pub code : Signed → ℕ
  code (v, negative) = if negative then minisat2_neg_lit lib v else minisat2_pos_lit lib v

  unfoldable pub run : lib.Solver → List Command → lib.Solver
  run s [] = s
  run s (variable ∷ cs) = run (minisat2_new_var lib s).1 cs
  run s (simplification ∷ cs) = run (minisat2_simplify lib s) cs
  run s (clause c ∷ cs) = run (minisat2_add_clause lib s (map code c)) cs

  -- The bindings report the value of the variable that makes the literal true.
  abbrev pub IsReported : lib.Solver → Signed → Type 0
  IsReported s (v, negative) = minisat2_value_of lib s v ≡ done (wanted negative)

  module _ (d : Documented lib) where
    lit_of : Signed → lib.Lit
    lit_of (v, negative) = lib.mk_lit v negative

    to_lit-code : (l : Signed) → lib.to_lit (code l) ≡ lit_of l
    unfolding lit_of minisat2_neg_lit minisat2_pos_lit
    to_lit-code (v, true) = d.to_lit-to_int (lib.mk_lit v true)
    to_lit-code (v, false) = d.to_lit-to_int (lib.mk_lit v false)

    convert-code :
        (c : List Signed) (r : List lib.Lit)
        → convert_literals lib (map code c) r ≡ r ++ map lit_of c
    unfolding convert_literals
    convert-code [] r = sym (append-nil r)
    convert-code (l ∷ c) r =
        ap (λ x. convert_literals lib (map code c) (r ++ x ∷ [])) (to_lit-code l)
        ∙ (convert-code c (r ++ lit_of l ∷ []) ∙ append_assoc r (lit_of l ∷ []) (map lit_of c))

    added :
        (s : lib.Solver) (c : List Signed)
        → minisat2_add_clause lib s (map code c) ≡ (lib.add_clause s (map lit_of c)).1
    unfolding minisat2_add_clause
    added s c = ap (λ k. (lib.add_clause s k).1) (convert-code c [])

    module _ (P : List lib.Lit → Type 0) where
      -- The clauses of the solver are those that were added, and the others before.
      run-clauses :
          (s : lib.Solver) (cs : List Command)
          → All P (d.clauses (run s cs))
          → All P (d.clauses s) × All (λ c. P (map lit_of c)) (clauses_of cs)
      unfolding run minisat2_new_var minisat2_simplify
      run-clauses s [] h = (h, tt)
      run-clauses s (variable ∷ cs) h =
          let (a, b) = run-clauses (lib.new_var s true true).1 cs h in
          (subst (All P) (d.var_clauses s true) a, b)
      run-clauses s (simplification ∷ cs) h =
          let (a, b) = run-clauses (lib.simplify s).1 cs h in
          (subst (All P) (d.simplify_clauses s) a, b)
      run-clauses s (clause c ∷ cs) h =
          let (a, b) = run-clauses (minisat2_add_clause lib s (map code c)) cs h in
          let a' = subst (All P) (ap d.clauses (added s c) ∙ d.add_clauses s (map lit_of c)) a in
          (a'.1, (a'.0, b))

      clauses-run :
          (s : lib.Solver) (cs : List Command)
          → All P (d.clauses s)
          → All (λ c. P (map lit_of c)) (clauses_of cs)
          → All P (d.clauses (run s cs))
      unfolding run minisat2_new_var minisat2_simplify
      clauses-run s [] a b = a
      clauses-run s (variable ∷ cs) a b =
          clauses-run (lib.new_var s true true).1 cs (subst (All P) (sym (d.var_clauses s true)) a)
            b
      clauses-run s (simplification ∷ cs) a b =
          clauses-run (lib.simplify s).1 cs (subst (All P) (sym (d.simplify_clauses s)) a) b
      clauses-run s (clause c ∷ cs) a b =
          clauses-run (minisat2_add_clause lib s (map code c)) cs
            (subst (All P) (sym (ap d.clauses (added s c) ∙ d.add_clauses s (map lit_of c)))
              (b.0, a))
            b.1

    run-Plain : (s : lib.Solver) (cs : List Command) → d.Plain s → d.Plain (run s cs)
    unfolding run minisat2_new_var minisat2_simplify
    run-Plain s [] p = p
    run-Plain s (variable ∷ cs) p = run-Plain (lib.new_var s true true).1 cs (d.var_Plain s true p)
    run-Plain s (simplification ∷ cs) p = run-Plain (lib.simplify s).1 cs (d.simplify_Plain s p)
    run-Plain s (clause c ∷ cs) p =
        run-Plain (minisat2_add_clause lib s (map code c)) cs
          (subst d.Plain (sym (added s c)) (d.add_Plain s (map lit_of c) p))

    solve-code :
        (s : lib.Solver) (assumed : List Signed)
        → minisat2_solve_with_assumption lib s (map code assumed) ≡ lib.solve s (map lit_of assumed)
    unfolding minisat2_solve_with_assumption
    solve-code s assumed = ap (lib.solve s) (convert-code assumed [])

    module _ (finds : FindsModels lib d) where
      value_of-IsReported :
          (s : lib.Solver) (l : Signed) → finds.holds_in s (lit_of l) → IsReported s l
      unfolding minisat2_value_of lit_of
      value_of-IsReported s (v, true) h = rw (finds.value_at s v true h, d.false_is.0) refl
      value_of-IsReported s (v, false) h =
          rw (finds.value_at s v false h, d.false_is.1, d.true_is) refl

      AnyOf-IsReported :
          (s : lib.Solver) (c : List Signed)
          → AnyOf (finds.holds_in s) (map lit_of c)
          → AnyOf (IsReported s) c
      AnyOf-IsReported s [] h = h
      AnyOf-IsReported s (l ∷ c) (inl h) = inl (value_of-IsReported s l h)
      AnyOf-IsReported s (l ∷ c) (inr h) = inr (AnyOf-IsReported s c h)

      All-IsReported :
          (s : lib.Solver) (c : List Signed)
          → All (finds.holds_in s) (map lit_of c)
          → All (IsReported s) c
      All-IsReported s [] h = tt
      All-IsReported s (l ∷ c) h = (value_of-IsReported s l h.0, All-IsReported s c h.1)

      -- With a library that does what is documented of MiniSat and of the models that it finds: after
      -- any session of new variables, clauses and simplifications, if solving under assumptions returns
      -- true, `minisat2_value_of` reports for some literal of each clause, and for each assumption, the
      -- value that makes it true.
      pub solve-IsReported :
          (cs : List Command) (assumed : List Signed) (s' : lib.Solver)
          → minisat2_solve_with_assumption lib (run lib.new_solver cs) (map code assumed)
            ≡ (true, s')
          → All (AnyOf (IsReported s')) (clauses_of cs) × All (IsReported s') assumed
      solve-IsReported cs assumed s' e =
          let s = run lib.new_solver cs in
          let (hold, kept) =
            finds.solved s s' (map lit_of assumed) (run-Plain lib.new_solver cs d.new_Plain)
              (sym (solve-code s assumed) ∙ e) in
          (
            All-imp (AnyOf-IsReported s') (clauses_of cs)
                (run-clauses (AnyOf (finds.holds_in s')) lib.new_solver cs hold).1,
            All-IsReported s' assumed kept,
          )

    module _ (refutes : Refutes lib d) where
      under : (ρ : ℕ → Bool) (l : Signed) → Satisfies ρ l → refutes.holds_under ρ (lit_of l)
      unfolding lit_of
      under ρ (v, negative) h = refutes.value_under ρ v negative h

      AnyOf-under :
          (ρ : ℕ → Bool) (c : List Signed)
          → AnyOf (Satisfies ρ) c
          → AnyOf (refutes.holds_under ρ) (map lit_of c)
      AnyOf-under ρ [] h = h
      AnyOf-under ρ (l ∷ c) (inl h) = inl (under ρ l h)
      AnyOf-under ρ (l ∷ c) (inr h) = inr (AnyOf-under ρ c h)

      All-under :
          (ρ : ℕ → Bool) (c : List Signed)
          → All (Satisfies ρ) c
          → All (refutes.holds_under ρ) (map lit_of c)
      All-under ρ [] h = tt
      All-under ρ (l ∷ c) h = (under ρ l h.0, All-under ρ c h.1)

      -- With a library that does what is documented of MiniSat and of its refutations: if solving under
      -- assumptions returns false after any session of new variables, clauses and simplifications, no
      -- assignment satisfies all clauses and assumptions.
      solve-refutes :
          (cs : List Command) (assumed : List Signed) (s' : lib.Solver)
          → minisat2_solve_with_assumption lib (run lib.new_solver cs) (map code assumed)
            ≡ (false, s')
          → (ρ : ℕ → Bool)
          → ¬ (All (AnyOf (Satisfies ρ)) (clauses_of cs) × All (Satisfies ρ) assumed)
      solve-refutes cs assumed s' e ρ (hold, kept) =
          let s = run lib.new_solver cs in
          refutes.refuted s s' (map lit_of assumed) (sym (solve-code s assumed) ∙ e) ρ
            (clauses-run (AnyOf (refutes.holds_under ρ)) lib.new_solver cs
              (subst (All (AnyOf (refutes.holds_under ρ))) (sym d.new_clauses) tt)
              (All-imp (AnyOf-under ρ) (clauses_of cs) hold))
            (All-under ρ assumed kept)
