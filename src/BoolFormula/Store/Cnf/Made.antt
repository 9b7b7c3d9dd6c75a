-- ===== src/BoolFormula/Store/Cnf/Made.antt =====
-- What `add_clauses_to_boolformula` and its parts have made when they end, next to the trees of Cnf.
use dorder.Prelude.{ℕ, ◌+◌, ◌≤◌, ◌<◌, ◌≡◌, ◌≢◌, pos, List, ◌∷◌, ◌++◌, Option, some, done, length}
use dorder.BoolFormula.{Lit, BoolFormula, Formulas, nil, cons}
use dorder.BoolFormula.Cnf as Tree
use dorder.BoolFormula.Store.{Ptr, literal, disjunct, conjunct, node, Store}
use dorder.BoolFormula.Store.Count.{KeepsCounts, at}
use dorder.BoolFormula.Store.Reads.{view, above, below, Reads, AllRead, depth}
use dorder.BoolFormula.Store.Cnf.{add_clauses}

-- New objects, which read as the clauses `cs`, stand behind those of `ret`; no object but `ret` has
-- changed.
pub record Adds (s s' : Store) (ret : Ptr) (ref : ℕ) (v : List (Option Ptr)) (cs : Formulas)
    : Type 0 where
  pub clauses : List (Option Ptr)
  pub result : at s' ret ≡ node ref (conjunct (v ++ clauses))
  pub read : AllRead (above (length s) (view s')) clauses cs
  pub old : (q : Ptr) → q < length s → ret ≢ q → at s' q ≡ at s q
  pub grows : length s ≤ length s'
  pub counted : KeepsCounts s s'

abbrev pub IsComposite : BoolFormula → Type 0
IsComposite (BoolFormula.literal l) = ⊥
IsComposite _ = Unit

-- What a call does for a formula in the objects in front of `lo`.
abbrev pub Clausifies : ℕ → BoolFormula → Type 0
Clausifies fuel f =
    (p ret : Ptr) (next ref : ℕ) (v : List (Option Ptr)) (s : Store) (lo : ℕ)
    → IsComposite f
    → Reads (below lo (view s)) p f
    → depth f ≤ fuel
    → 0 < next
    → lo ≤ ret
    → at s ret ≡ node ref (conjunct v)
    → (s' : Store) × (next' : ℕ) × (cs : Formulas) × (add_clauses fuel ret p next s
        ≡ done (next', s'))
      × (Tree.add_clauses f next ≡ done (cs, next'))
      × (next ≤ next')
      × Adds s s' ret ref v cs

-- The literal that stands for a subformula in a clause, and the clauses that follow.
abbrev pub PartOf : BoolFormula → ℕ → Lit → Formulas → ℕ → Type 0
PartOf (BoolFormula.literal k) next l cs next' = (l ≡ k) × (cs ≡ nil) × (next' ≡ next)
PartOf (BoolFormula.disjunct fs) next l cs next' =
    (l ≡ pos (next + 1))
    × (Tree.add_clauses (BoolFormula.disjunct fs) (next + 1) ≡ done (cs, next'))
PartOf (BoolFormula.conjunct fs) next l cs next' =
    (l ≡ pos (next + 1))
    × (Tree.add_clauses (BoolFormula.conjunct fs) (next + 1) ≡ done (cs, next'))

-- The literal stands in the slot of `dis` after `pre`; no object but `ret` and `dis` has changed.
pub record PlacesPart (s s' : Store) (dis : Ptr) (k : ℕ) (pre rest : List (Option Ptr)) (ret : Ptr)
    (ref : ℕ) (v : List (Option Ptr)) (l : Lit) (cs : Formulas) : Type 0 where
  pub slot : Ptr
  pub parent : at s' dis ≡ node k (disjunct (pre ++ some slot ∷ rest))
  pub there : view s' slot ≡ some (literal l)
  pub fresh : length s ≤ slot
  pub clauses : List (Option Ptr)
  pub result : at s' ret ≡ node ref (conjunct (v ++ clauses))
  pub read : AllRead (above (length s) (view s')) clauses cs
  pub old : (q : Ptr) → q < length s → ret ≢ q → dis ≢ q → at s' q ≡ at s q
  pub grows : length s ≤ length s'
  pub counted : KeepsCounts s s'

abbrev pub AllClausify : ℕ → Formulas → Type 0
AllClausify fuel nil = Unit
AllClausify fuel (cons f fs) = Clausifies fuel f × AllClausify fuel fs

-- The same for the literals `lits`, in the slots of `dis` after `pre`.
pub record Literals (s s' : Store) (dis : Ptr) (k : ℕ) (pre : List (Option Ptr)) (ret : Ptr)
    (ref : ℕ) (v : List (Option Ptr)) (lits cs : Formulas) : Type 0 where
  pub written : List (Option Ptr)
  pub parent : at s' dis ≡ node k (disjunct (pre ++ written))
  pub literals : AllRead (above (length s) (view s')) written lits
  pub clauses : List (Option Ptr)
  pub result : at s' ret ≡ node ref (conjunct (v ++ clauses))
  pub read : AllRead (above (length s) (view s')) clauses cs
  pub old : (q : Ptr) → q < length s → ret ≢ q → dis ≢ q → at s' q ≡ at s q
  pub grows : length s ≤ length s'
  pub counted : KeepsCounts s s'

-- Clauses for `ret` in objects from `b` on, which take `n` pointers to the literal `cl` in `cur_neg`; no
-- object but `ret` and `cur_neg` has changed.
pub record Clauses (s s' : Store) (b cur_neg m n : ℕ) (cl : Lit) (ret : Ptr) (ref : ℕ)
    (v : List (Option Ptr)) (cs : Formulas) : Type 0 where
  pub sign : at s' cur_neg ≡ node (m + n) (literal cl)
  pub clauses : List (Option Ptr)
  pub result : at s' ret ≡ node ref (conjunct (v ++ clauses))
  pub read : AllRead (above b (view s')) clauses cs
  pub old : (q : Ptr) → q < length s → ret ≢ q → cur_neg ≢ q → at s' q ≡ at s q
  pub grows : length s ≤ length s'
  pub counted : KeepsCounts s s'
