-- ===== src/Learn/Bases.antt =====
-- The learner's state in cdnf.c: the `basis` records, and the functions that read and extend them.
use dorder.Prelude.{
  ℕ, suc, List, [], ◌∷◌, ◌++◌, Run, done, ◌>>=◌, ◌>>◌, assert, ltb, length, if◌then◌else◌,
}
use dorder.Bits.{Bits, get}
use dorder.BoolFormula.{lit_complement, var_from_lit}
use dorder.CdnfFormula.{Monomial, Disjunction, Conjunction, eval_m_dnf}

-- A pointer `H` that is not NULL; for the time in which it is, see `Refine`.
pub record Basis : Type 0 where
  pub h : Disjunction
  pub t : List Bits
  pub a : Bits

unfoldable pub add_basis : List Basis → Bits → List Basis
add_basis bases a = bases ++ record { h = []; t = []; a = a } ∷ []

unfoldable pub get_conjecture : List Basis → Conjunction
get_conjecture [] = []
get_conjecture (b ∷ bases) = b.h ∷ get_conjecture bases

-- The loop from the index `i`, over the bases from there on.
unfoldable pub indices_from : ℕ → List Basis → Bits → Run (List ℕ)
unfolding eval_m_dnf
indices_from i [] v = done []
indices_from i (b ∷ bases) v = do
  e ← eval_m_dnf b.h v
  rest ← indices_from (suc i) bases v
  done (if e then rest else i ∷ rest)

-- The indices of the bases whose disjunction is false at `v`.
unfoldable pub get_indices_to_modify : List Basis → Bits → Run (List ℕ)
unfolding indices_from
get_indices_to_modify bases v = indices_from 0 bases v

-- m (x ^ a): the literals of the variables that are set in `a` change sign.
unfoldable pub compute_m_of_x_xor_a : Monomial → Bits → Run Monomial
unfolding var_from_lit lit_complement
compute_m_of_x_xor_a [] a = done []
compute_m_of_x_xor_a (l ∷ m) a = do
  v ← var_from_lit l
  assert (ltb v (length a))
  b ← get a v
  l' ← if b then lit_complement l else done l
  m' ← compute_m_of_x_xor_a m a
  done (l' ∷ m')
