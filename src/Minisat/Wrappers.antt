-- ===== src/Minisat/Wrappers.antt =====
-- The solvers of minisat_stubs.cc as C++ objects: OCaml holds wrappers of pointers to them, and the
-- collector deletes the solver of a wrapper that it finalises.
use dorder.Prelude.{
  ℕ, zero, suc, ◌≡◌, refl, sym, ap, ◌∙◌, true, List, [], ◌∷◌, ◌++◌, map, Option, none, some, Run,
  done, ◌>>=◌, >>=-eq-done, checked, length, get_elem?, set, ◌==◌,
}
use dorder.Minisat.{
  Minisat, minisat2_new_solver, minisat2_new_var, minisat2_add_clause, minisat2_simplify,
}
use dorder.Minisat.Session.{Command, variable, simplification, clause, code, run}

-- A pointer to a solver; the wrapper that holds it is finalised once.
abbrev pub Ptr : Type 0
Ptr = ℕ

-- What OCaml code and the collector do.
pub data Event : Type 0 where
  create : Event
  command : Ptr → Command → Event
  finalise : Ptr → Event

-- The commands that were given to each solver, as long as its wrapper is there.
abbrev pub Histories : Type 0
Histories = List (Option (List Command))

abbrev pub history_step : Event → Histories → Run Histories
history_step create H = done (H ++ some [] ∷ [])
history_step (command p c) H = do
  slot ← checked (get_elem? H p)
  cs ← checked slot
  done (set H p (some (cs ++ c ∷ [])))
history_step (finalise p) H = do
  slot ← checked (get_elem? H p)
  cs ← checked slot
  done (set H p none)

-- Only wrappers that are there are used and finalised, each once: the run of the histories ends.
unfoldable pub histories : List Event → Histories → Run Histories
histories [] H = done H
histories (e ∷ es) H = do H' ← history_step e H; histories es H'

module _ (lib : Minisat) where
  -- The objects; a solver that was deleted is `none`.
  abbrev pub Heap : Type 0
  Heap = List (Option lib.Solver)

  abbrev pub solver_val : Ptr → Heap → Run lib.Solver
  solver_val p h = do slot ← checked (get_elem? h p); checked slot

  -- The wrapper of a new object.
  unfoldable pub alloc_solver : lib.Solver → Heap → Ptr × Heap
  alloc_solver s h = (length h, h ++ some s ∷ [])

  -- `delete` of a solver that was deleted is out of bounds.
  unfoldable pub minisat2_dealloc_solver : Ptr → Heap → Run Heap
  minisat2_dealloc_solver p h = do s ← solver_val p h; done (set h p none)

  -- A binding with a wrapper for its argument.
  abbrev pub with_solver : (lib.Solver → lib.Solver) → Ptr → Heap → Run Heap
  with_solver op p h = do s ← solver_val p h; done (set h p (some (op s)))

  abbrev pub event : Event → Heap → Run Heap
  event create h = do s ← minisat2_new_solver lib; done (alloc_solver s h).1
  event (command p c) h = with_solver (λ s. run lib s (c ∷ [])) p h
  event (finalise p) h = minisat2_dealloc_solver p h

  unfoldable pub events : List Event → Heap → Run Heap
  events [] h = done h
  events (e ∷ es) h = do h' ← event e h; events es h'

  -- The solver after its commands.
  abbrev after : Option (List Command) → Option lib.Solver
  after none = none
  after (some cs) = some (run lib lib.new_solver cs)

  module _ (fresh : (lib.n_vars lib.new_solver == 0) ≡ true) where
    run-append :
        (cs ds : List Command) (s : lib.Solver) → run lib s (cs ++ ds) ≡ run lib (run lib s cs) ds
    unfolding run
    run-append [] ds s = refl
    run-append (variable ∷ cs) ds s = run-append cs ds (minisat2_new_var lib s).1
    run-append (simplification ∷ cs) ds s = run-append cs ds (minisat2_simplify lib s)
    run-append (clause c ∷ cs) ds s =
        run-append cs ds (minisat2_add_clause lib s (map (code lib) c))

    map-append :
        (H : Histories) (o : Option (List Command))
        → map after (H ++ o ∷ []) ≡ map after H ++ after o ∷ []
    map-append [] o = refl
    map-append (x ∷ H) o = ap (λ l. after x ∷ l) (map-append H o)

    map-set :
        (H : Histories) (p : Ptr) (o : Option (List Command))
        → map after (set H p o) ≡ set (map after H) p (after o)
    map-set [] p o = refl
    map-set (x ∷ H) zero o = refl
    map-set (x ∷ H) (suc p) o = ap (λ l. after x ∷ l) (map-set H p o)

    solver_val-map :
        (H : Histories) (p : Ptr) (cs : List Command)
        → (checked (get_elem? H p) >>= checked) ≡ done cs
        → solver_val p (map after H) ≡ done (run lib lib.new_solver cs)
    solver_val-map [] p cs e = cc
    solver_val-map (none ∷ H) zero cs e = cc
    solver_val-map (some ds ∷ H) zero cs e = ap (λ u. done (run lib lib.new_solver u)) (same e)
      where
        same : ◌≡◌ {A = Run (List Command)} (done ds) (done cs) → ds ≡ cs
        same z = cc
    solver_val-map (x ∷ H) (suc p) cs e = solver_val-map H p cs e

    -- The two reads of a step in the histories.
    read-history :
        (H H' : Histories) (p : Ptr) (k : List Command → Option (List Command))
        → (do slot ← checked (get_elem? H p); cs ← checked slot; done (set H p (k cs))) ≡ done H'
        → (cs : List Command) × ((checked (get_elem? H p) >>= checked) ≡ done cs)
          × (H' ≡ set H p (k cs))
    read-history H H' p k e =
        let (slot, e₁, e₂) = >>=-eq-done (checked (get_elem? H p)) _ e in
        let (cs, e₃, e₄) = >>=-eq-done (checked slot) _ e₂ in (cs, rw e₁ e₃, same (sym e₄))
      where
        same : {G G' : Histories} → ◌≡◌ {A = Run Histories} (done G) (done G') → G ≡ G'
        same z = cc

    event-histories :
        (e : Event) (H H' : Histories)
        → history_step e H ≡ done H'
        → event e (map after H) ≡ done (map after H')
    unfolding minisat2_new_solver alloc_solver minisat2_dealloc_solver run
    event-histories create H H' e =
        rw fresh (ap done (sym (map-append H (some [])) ∙ ap (map after) (same e)))
      where
        same : {G G' : Histories} → ◌≡◌ {A = Run Histories} (done G) (done G') → G ≡ G'
        same z = cc
    event-histories (command p c) H H' e =
        let (cs, r, q) = read-history H H' p (λ cs. some (cs ++ c ∷ [])) e in
        rw
          (
            solver_val-map H p cs r,
            q,
            map-set H p (some (cs ++ c ∷ [])),
            run-append cs (c ∷ []) lib.new_solver,
          )
          refl
    event-histories (finalise p) H H' e =
        let (cs, r, q) = read-history H H' p (λ cs. none) e in
        rw (solver_val-map H p cs r, q, map-set H p none) refl

    -- With a library whose new solver has no variables: if OCaml code uses only wrappers that are there,
    -- and the collector finalises each once, no solver that was deleted is used or deleted again, and the
    -- solver of each wrapper is the one that its own commands make of a new solver.
    pub events-histories :
        (es : List Event) (H H' : Histories)
        → histories es H ≡ done H'
        → events es (map after H) ≡ done (map after H')
    unfolding histories events
    events-histories [] H H' e = ap (λ u. done u) (ap (map after) (same e))
      where
        same : {G G' : Histories} → ◌≡◌ {A = Run Histories} (done G) (done G') → G ≡ G'
        same z = cc
    events-histories (e ∷ es) H H' r =
        let (H₁, r₁, r₂) = >>=-eq-done (history_step e H) (histories es) r in
        rw (event-histories e H H₁ r₁) (events-histories es H₁ H' r₂)
