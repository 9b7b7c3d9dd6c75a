-- ===== src/Learn/Core.antt =====
-- `learn_core` and `learn` of cdnf.c.
use dorder.Prelude.{
  ℕ, zero, suc, ◌+◌, ◌&&◌, ◌||◌, Option, none, some, List, [], ◌∷◌, ◌++◌, Run, done, out_of_fuel,
  ◌>>=◌, ◌>>◌, assert, checked, ◌==◌, length, get_elem?, set, if◌then◌else◌,
}
use dorder.Bits.{Bits, xor_of, is_zeros}
use dorder.BoolFormula.{BoolFormula, copy}
use dorder.CdnfFormula.{Monomial, to_boolformula}
use dorder.Learn.Teacher.{Teacher, Mode, is_plus, is_plus_plus, is_plus3}
use dorder.Learn.Bases.{Basis, add_basis, get_conjecture, get_indices_to_modify}
use dorder.Learn.Walk.{walk}
use dorder.Learn.Refine.{monomial_at, refine_bases}

-- How a round ends: the loop goes on with these bases and this many variables, or `learn_core`
-- returns NULL.
pub data Next : Type 0 where
  continue : List Basis → ℕ → Next
  conflict : Next

-- `vector_add (T_i, v_i)` and `vector_add (H_i, m)`
abbrev pub add_support : Basis → Bits → Monomial → Basis
add_support b v m = record { h = b.h ++ m ∷ []; t = b.t ++ v ∷ []; a = b.a }

-- What has been found of a counterexample at one basis.
pub data Fix : Type 0 where
  supported : Bits → Monomial → Fix
  clash : Fix

module _ (teacher : Teacher) (mode : Mode) where
  -- The conjecture of the current bases.
  unfoldable pub conjecture : List Basis → BoolFormula
  conjecture bases = to_boolformula (get_conjecture bases)

  -- `walk` from a copy of `v`, and the monomial of the point that it reaches. It is a clash if
  -- that point is the basis itself.
  unfoldable pub fix_basis : Basis → Bits → Run Fix
  unfolding walk monomial_at
  fix_basis b v = do
    v' ← walk teacher.membership b.a v
    x ← xor_of v' b.a
    z ← is_zeros x
    if z then done clash else (do m ← monomial_at b.a x; done (supported v' m))

  -- `refine_bases` and `num_vars++`
  unfoldable pub refine : List Basis → ℕ → Run Next
  unfolding refine_bases
  refine bases num_vars = do
    bases' ← refine_bases teacher mode bases
    done (continue bases' (num_vars + 1))

  -- What follows a clash, which breaks the loop.
  unfoldable pub on_clash : List Basis → ℕ → Run Next
  unfolding refine
  on_clash bases num_vars =
      if is_plus_plus mode || is_plus3 mode then refine bases num_vars else done conflict

  -- The loop over the indices to modify.
  unfoldable pub fix_bases : List ℕ → Bits → List Basis → ℕ → Run Next
  unfolding fix_basis on_clash
  fix_bases [] v bases num_vars = done (continue bases num_vars)
  fix_bases (i ∷ is) v bases num_vars = do
    b ← checked (get_elem? bases i)
    r ← fix_basis b v
    elim r [
      | clash ↦ on_clash bases num_vars
      | supported v' m ↦ fix_bases is v (set bases i (add_support b v' m)) num_vars
    ]

  -- A counterexample at which every disjunction is true.
  unfoldable pub on_all_true : Bits → List Basis → ℕ → Run Next
  unfolding refine add_basis
  on_all_true v bases num_vars =
      if is_plus3 mode && teacher.membership v
      then refine bases num_vars
      else done (continue (add_basis bases v) num_vars)

  -- The body of the `while` loop, once the counterexample `v` is known.
  unfoldable pub round : Bits → List Basis → ℕ → Run Next
  unfolding get_indices_to_modify on_all_true fix_bases
  round v bases num_vars = do
    assert (length v == num_vars + 1)
    is ← get_indices_to_modify bases v
    elim is [ [] ↦ on_all_true v bases num_vars | i ∷ rest ↦ fix_bases (i ∷ rest) v bases num_vars ]

  -- The `while` loop at its `k`-th equivalence query. The result NULL is `none`.
  unfoldable pub loop : ℕ → ℕ → List Basis → ℕ → Run (Option BoolFormula)
  loop zero k bases num_vars = out_of_fuel
  loop (suc fuel) k bases num_vars =
      elim (teacher.equivalence k num_vars (copy (conjecture bases))) [
        | none ↦ done (some (conjecture bases))
        | some v ↦ do
          next ← round v bases num_vars
          elim next [
            | conflict ↦ done none
            | continue bases' num_vars' ↦ loop fuel (suc k) bases' num_vars'
          ]
      ]

  unfoldable pub learn_core : ℕ → ℕ → Run (Option BoolFormula)
  learn_core fuel num_vars = elim (teacher.equivalence 0 num_vars (copy (conjecture []))) [
    | none ↦ done (some (conjecture []))
    | some v ↦ do assert (length v == num_vars + 1); loop fuel 1 (add_basis [] v) num_vars
  ]

  -- The restarts of CDNF_Plus, with one more variable each.
  unfoldable pub restart : ℕ → ℕ → ℕ → Run (Option BoolFormula)
  unfolding learn_core
  restart zero fuel num_vars = out_of_fuel
  restart (suc tries) fuel num_vars = do
    r ← learn_core fuel num_vars
    elim r [ some f ↦ done (some f) | none ↦ restart tries fuel (num_vars + 1) ]

  unfoldable pub learn : ℕ → ℕ → ℕ → Run (Option BoolFormula)
  unfolding restart learn_core
  learn tries fuel num_vars =
      if is_plus mode then restart tries fuel num_vars else learn_core fuel num_vars
