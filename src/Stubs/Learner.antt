-- ===== src/Stubs/Learner.antt =====
-- `learn_core` and `learn` (external/cdnfcore/cdnf.c) on the store of boolformula.c: the bases are those of
-- Learn, the formulas are objects.
pub mod Behaves
pub mod Refines
use dorder.Prelude.{
  ℕ, zero, suc, ◌+◌, Bool, true, false, Option, none, some, List, [], ◌∷◌, Run, done, out_of_fuel,
  ◌>>=◌, ◌>>◌, assert, ◌==◌, length, if◌then◌else◌,
}
use dorder.Bits.{Bits}
use dorder.BoolFormula.Store.{Ptr}
use dorder.CdnfFormula.{Conjunction}
use dorder.Learn.Teacher.{Teacher, Mode, is_plus}
use dorder.Learn.Bases.{Basis, add_basis, get_conjecture}
use dorder.Learn.Core.{Next, continue, conflict, round}
use dorder.Stubs.Session.{Session}
use dorder.Stubs.Query.{offer, conclude}

-- `eq_result->is_equal`
abbrev pub is_equal : Option Bits → Bool
is_equal none = true
is_equal (some v) = false

-- `ask` is the call of the closure, with the number of the query and the wrapper of the copy: its answer,
-- and what it has done in the session.
module _ (teacher : Teacher) (mode : Mode)
    (ask : ℕ → ℕ → Ptr → Session → Option Bits × Session) where
  -- An equivalence query: the answer, and the formula if it is equal.
  unfoldable pub query : ℕ → ℕ → Conjunction → Session → Run (Option Bits × Option Ptr × Session)
  unfolding offer conclude
  query k num_vars conjecture s = do
    (b_conjecture, f, s₁) ← offer conjecture s.store
    let (answer, t) = ask k num_vars f (record { store = s₁; held = f ∷ s.held })
    (r, s₂) ← conclude (is_equal answer) b_conjecture t.store
    done (answer, r, record { store = s₂; held = t.held })

  unfoldable pub loop : ℕ → ℕ → List Basis → ℕ → Session → Run (Option Ptr × Session)
  unfolding query get_conjecture round
  loop zero k bases num_vars s = out_of_fuel
  loop (suc fuel) k bases num_vars s = do
    (answer, r, s') ← query k num_vars (get_conjecture bases) s
    elim answer [
      | none ↦ done (r, s')
      | some v ↦ do
        next ← round teacher mode v bases num_vars
        elim next [
          | conflict ↦ done (none, s')
          | continue bases' num_vars' ↦ loop fuel (suc k) bases' num_vars' s'
        ]
    ]

  unfoldable pub learn_core : ℕ → ℕ → Session → Run (Option Ptr × Session)
  unfolding query get_conjecture loop add_basis
  learn_core fuel num_vars s = do
    (answer, r, s') ← query 0 num_vars (get_conjecture []) s
    elim answer [
      | none ↦ done (r, s')
      | some v ↦ do assert (length v == num_vars + 1); loop fuel 1 (add_basis [] v) num_vars s'
    ]

  unfoldable pub restart : ℕ → ℕ → ℕ → Session → Run (Option Ptr × Session)
  unfolding learn_core
  restart zero fuel num_vars s = out_of_fuel
  restart (suc tries) fuel num_vars s = do
    (r, s') ← learn_core fuel num_vars s
    elim r [ some p ↦ done (some p, s') | none ↦ restart tries fuel (num_vars + 1) s' ]

  unfoldable pub learn : ℕ → ℕ → ℕ → Session → Run (Option Ptr × Session)
  unfolding restart learn_core
  learn tries fuel num_vars s =
      if is_plus mode then restart tries fuel num_vars s else learn_core fuel num_vars s
