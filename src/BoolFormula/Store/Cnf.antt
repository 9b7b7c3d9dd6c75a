-- ===== src/BoolFormula/Store/Cnf.antt =====
-- `boolformula_to_cnf` and `add_clauses_to_boolformula` of boolformula.c on a store. `*next_fresh` is
-- passed on as a number.
pub mod Steps
pub mod Made
pub mod Parts
pub mod Clause
pub mod Sign
pub mod Disjunct
pub mod Conjunct
pub mod Composite
pub mod Result
use dorder.Prelude.{
  ℕ, zero, suc, ◌+◌, pos, List, [], ◌∷◌, Run, done, failed, out_of_fuel, ◌>>=◌, length,
}
use dorder.BoolFormula.{Lit, lit_complement}
use dorder.BoolFormula.Store.{
  Ptr, Content, literal, disjunct, conjunct, Store, load, literal_new, disjunction_new,
  conjunction_unit, read_slot, add, set_subformula, free,
}
use dorder.BoolFormula.Store.Copy.{copy}

-- A new literal in a slot of `dis`.
unfoldable pub place : Ptr → ℕ → Lit → Store → Run Store
unfolding set_subformula free
place dis i l s = do
  let (temp, s₁) = literal_new l s
  s₂ ← set_subformula dis i temp s₁
  free (suc (length s₂)) temp s₂

-- What stands for the subformula `g` in the clause `dis`: `g` if it is a literal, and else a fresh
-- variable, the clauses of which follow.
unfoldable pub place_part :
    (Ptr → ℕ → Store → Run (ℕ × Store)) → Ptr → ℕ → Ptr → ℕ → Store → Run (ℕ × Store)
unfolding load place
place_part call dis i g next s = do
  (ref, c) ← load s g
  elim c [
    | literal l ↦ do s' ← place dis i l s; done (next, s')
    | disjunct v ↦ do s' ← place dis i (pos (next + 1)) s; call g (next + 1) s'
    | conjunct v ↦ do s' ← place dis i (pos (next + 1)) s; call g (next + 1) s'
  ]

-- The loop over a conjunction `f` from the index `i` on, with `n` subformulas left.
unfoldable pub conjunct_clauses :
    (Ptr → ℕ → Store → Run (ℕ × Store)) → Ptr → Ptr → Ptr → ℕ → ℕ → ℕ → Store → Run (ℕ × Store)
unfolding add set_subformula read_slot place_part free
conjunct_clauses call ret f cur_neg i zero next s = done (next, s)
conjunct_clauses call ret f cur_neg i (suc n) next s = do
  let (dis, s₁) = disjunction_new 2 s
  s₂ ← add ret dis s₁
  s₃ ← set_subformula dis 0 cur_neg s₂
  g ← read_slot f i s₃
  (next', s₄) ← place_part call dis 1 g next s₃
  s₅ ← free (suc (length s₄)) dis s₄
  conjunct_clauses call ret f cur_neg (suc i) n next' s₅

-- The loop over a disjunction.
unfoldable pub disjunct_literals :
    (Ptr → ℕ → Store → Run (ℕ × Store)) → Ptr → Ptr → ℕ → ℕ → ℕ → Store → Run (ℕ × Store)
unfolding read_slot place_part
disjunct_literals call dis f i zero next s = done (next, s)
disjunct_literals call dis f i (suc n) next s = do
  g ← read_slot f i s
  (next', s') ← place_part call dis (suc i) g next s
  disjunct_literals call dis f (suc i) n next' s'

-- `add_clauses_to_boolformula`, with fuel for the depth of the calls. On a literal the program exits.
unfoldable pub add_clauses : ℕ → Ptr → Ptr → ℕ → Store → Run (ℕ × Store)
unfolding lit_complement load conjunct_clauses disjunct_literals add set_subformula free
add_clauses zero ret f next s = out_of_fuel
add_clauses (suc fuel) ret f next s = do
  l ← lit_complement (pos next)
  let (cur_neg, s₀) = literal_new l s
  (ref, c) ← load s₀ f
  (next', s') ← elim c [
    | literal k ↦ failed
    | conjunct v ↦ conjunct_clauses (add_clauses fuel ret) ret f cur_neg 0 (length v) next s₀
    | disjunct v ↦ do
      let (dis, s₁) = disjunction_new (suc (length v)) s₀
      s₂ ← add ret dis s₁
      s₃ ← set_subformula dis 0 cur_neg s₂
      (next', s₄) ← disjunct_literals (add_clauses fuel ret) dis f 0 (length v) next s₃
      s₅ ← free (suc (length s₄)) dis s₄
      done (next', s₅)
  ]
  s'' ← free (suc (length s')) cur_neg s'
  done (next', s'')

-- The result for a conjunction or a disjunction.
unfoldable pub to_cnf_composite : ℕ → Ptr → ℕ → Store → Run (Ptr × Store)
unfolding add add_clauses free
to_cnf_composite fuel f num_var s = do
  let (ret, s₁) = conjunction_unit s
  let (cur, s₂) = literal_new (pos (num_var + 1)) s₁
  s₃ ← add ret cur s₂
  (next, s₄) ← add_clauses fuel ret f (num_var + 1) s₃
  s₅ ← free (suc (length s₄)) cur s₄
  done (ret, s₅)

unfoldable pub to_cnf : ℕ → Ptr → ℕ → Store → Run (Ptr × Store)
unfolding load copy to_cnf_composite
to_cnf fuel f num_var s = do
  (ref, c) ← load s f
  elim c [
    | literal l ↦ copy fuel f s
    | disjunct v ↦ to_cnf_composite fuel f num_var s
    | conjunct v ↦ to_cnf_composite fuel f num_var s
  ]
