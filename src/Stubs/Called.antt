-- ===== src/Stubs/Called.antt =====
-- `learn` (external/cdnfcore/cdnf.c) with callbacks in which an assertion may fail. The bases and all
-- functions that call nothing back are those of Learn.
pub mod Agrees
use dorder.Prelude.{
  ℕ, zero, suc, ◌+◌, ◌-◌, Bool, true, false, not, xor, ◌||◌, Option, none, some, List, [], ◌∷◌, Run,
  done, out_of_fuel, ◌>>=◌, ◌>>◌, assert, checked, ◌==◌, length, get_elem?, set, if◌then◌else◌,
}
use dorder.Bits.{Bits, get, put, extend, xor_of, is_zeros}
use dorder.BoolFormula.{BoolFormula, copy}
use dorder.CdnfFormula.{last_index, to_boolformula}
use dorder.Learn.Teacher.{Mode, is_plus, is_plus_plus, is_plus3}
use dorder.Learn.Bases.{Basis, add_basis, get_conjecture, get_indices_to_modify}
use dorder.Learn.Walk.{walk_fuel}
use dorder.Learn.Refine.{Support, is_empty, monomial_at, rebuild_disjunctions}
use dorder.Learn.Core.{Next, continue, conflict, Fix, supported, clash, add_support}

-- The callbacks, on the bits of the vectors. An equivalence query has its number.
pub record Callbacks : Type 0 where
  pub membership : Bits → Run Bool
  pub comembership : Bits → Run Bool
  pub equivalence : ℕ → ℕ → BoolFormula → Run (Option Bits)

module _ (cb : Callbacks) (mode : Mode) where
  unfoldable pub walk_step : Bits → ℕ → Bits → Run (Bits × ℕ)
  walk_step a i v = do
    b ← get v i
    c ← get a i
    let flip = (do
      w ← put v i (not b)
      m ← cb.membership w
      if m then done (w, length a - 1) else (do w' ← put w i b; done (w', i - 1)))
    if xor b c then flip else done (v, i - 1)

  unfoldable pub walk_loop : Bits → ℕ → ℕ → Bits → Run Bits
  unfolding walk_step
  walk_loop a zero i v = out_of_fuel
  walk_loop a (suc fuel) zero v = done v
  walk_loop a (suc fuel) (suc i) v = do (v', i') ← walk_step a (suc i) v; walk_loop a fuel i' v'

  unfoldable pub walk : Bits → Bits → Run Bits
  unfolding walk_loop
  walk a v = do
    assert (length v == length a)
    i ← last_index a
    walk_loop a (walk_fuel (λ w. false) a) i v

  unfoldable pub fix_basis : Basis → Bits → Run Fix
  unfolding walk monomial_at
  fix_basis b v = do
    v' ← walk b.a v
    x ← xor_of v' b.a
    z ← is_zeros x
    if z then done clash else (do m ← monomial_at b.a x; done (supported v' m))

  unfoldable pub extend_point : ℕ → Bool → Bits → Run Bits
  extend_point l b v = do
    assert (length v == l)
    v' ← put (extend v false) l b
    m ← cb.membership v'
    let c = if m then b else not b
    if xor c b then put v' l c else done v'

  unfoldable pub extend_points : ℕ → Bool → List Bits → Run (List Bits)
  unfolding extend_point
  extend_points l b [] = done []
  extend_points l b (v ∷ vs) = do
    v' ← extend_point l b v
    vs' ← extend_points l b vs
    done (v' ∷ vs')

  -- Only CDNF_PlusPlus calls `is_comember`.
  unfoldable pub extension : Bits → Run Bool
  extension a =
      if is_plus_plus mode
      then (do m ← cb.comembership a; done (if m then false else true))
      else done false

  unfoldable pub strip_bases : List Basis → Run (List Support)
  unfolding extend_points extension
  strip_bases [] = done []
  strip_bases (b ∷ bases) = do
    let l = length b.a
    a ← put (extend b.a false) l false
    e ← extension a
    a' ← put a l e
    assert (is_empty bases || not (is_empty b.t))
    points ← extend_points l e b.t
    rest ← strip_bases bases
    if is_empty b.t
        then (assert (is_empty bases) >> done rest)
        else done (record { points = points; origin = a' } ∷ rest)

  unfoldable pub refine_bases : List Basis → Run (List Basis)
  unfolding strip_bases rebuild_disjunctions
  refine_bases bases = do stripped ← strip_bases bases; rebuild_disjunctions stripped

  unfoldable pub refine : List Basis → ℕ → Run Next
  unfolding refine_bases
  refine bases num_vars = do bases' ← refine_bases bases; done (continue bases' (num_vars + 1))

  unfoldable pub on_clash : List Basis → ℕ → Run Next
  unfolding refine
  on_clash bases num_vars =
      if is_plus_plus mode || is_plus3 mode then refine bases num_vars else done conflict

  unfoldable pub fix_bases : List ℕ → Bits → List Basis → ℕ → Run Next
  unfolding fix_basis on_clash
  fix_bases [] v bases num_vars = done (continue bases num_vars)
  fix_bases (i ∷ is) v bases num_vars = do
    b ← checked (get_elem? bases i)
    r ← fix_basis b v
    elim r [
      | clash ↦ on_clash bases num_vars
      | supported v' m ↦ fix_bases is v (set bases i (add_support b v' m)) num_vars
    ]

  -- `mode == CDNF_Plus3 && is_member (info, v)`
  unfoldable pub on_all_true : Bits → List Basis → ℕ → Run Next
  unfolding refine add_basis
  on_all_true v bases num_vars = do
    m ← if is_plus3 mode then cb.membership v else done false
    if m then refine bases num_vars else done (continue (add_basis bases v) num_vars)

  unfoldable pub round : Bits → List Basis → ℕ → Run Next
  unfolding get_indices_to_modify on_all_true fix_bases
  round v bases num_vars = do
    assert (length v == num_vars + 1)
    is ← get_indices_to_modify bases v
    elim is [ [] ↦ on_all_true v bases num_vars | i ∷ rest ↦ fix_bases (i ∷ rest) v bases num_vars ]

  unfoldable pub loop : ℕ → ℕ → List Basis → ℕ → Run (Option BoolFormula)
  unfolding to_boolformula get_conjecture round
  loop zero k bases num_vars = out_of_fuel
  loop (suc fuel) k bases num_vars = do
    answer ← cb.equivalence k num_vars (copy (to_boolformula (get_conjecture bases)))
    elim answer [
      | none ↦ done (some (to_boolformula (get_conjecture bases)))
      | some v ↦ do
        next ← round v bases num_vars
        elim next [
          | conflict ↦ done none
          | continue bases' num_vars' ↦ loop fuel (suc k) bases' num_vars'
        ]
    ]

  unfoldable pub learn_core : ℕ → ℕ → Run (Option BoolFormula)
  unfolding to_boolformula get_conjecture loop add_basis
  learn_core fuel num_vars = do
    answer ← cb.equivalence 0 num_vars (copy (to_boolformula (get_conjecture [])))
    elim answer [
      | none ↦ done (some (to_boolformula (get_conjecture [])))
      | some v ↦ do assert (length v == num_vars + 1); loop fuel 1 (add_basis [] v) num_vars
    ]

  unfoldable pub restart : ℕ → ℕ → ℕ → Run (Option BoolFormula)
  unfolding learn_core
  restart zero fuel num_vars = out_of_fuel
  restart (suc tries) fuel num_vars = do
    r ← learn_core fuel num_vars
    elim r [ some f ↦ done (some f) | none ↦ restart tries fuel (num_vars + 1) ]

  unfoldable pub learn : ℕ → ℕ → ℕ → Run (Option BoolFormula)
  unfolding restart learn_core
  learn tries fuel num_vars =
      if is_plus mode then restart tries fuel num_vars else learn_core fuel num_vars
