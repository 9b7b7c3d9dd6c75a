-- ===== src/Learn/Refine.antt =====
-- `refine_bases` and `rebuild_disjunctions` of cdnf.c: one more variable after a conflict.
use dorder.Prelude.{
  ℕ, Bool, true, false, not, xor, ◌||◌, List, [], ◌∷◌, Run, done, ◌>>=◌, ◌>>◌, assert, ◌==◌, length,
  if◌then◌else◌,
}
use dorder.Bits.{Bits, put, extend, xor_of, is_zeros}
use dorder.CdnfFormula.{Monomial, Disjunction, monomial_m_dnf}
use dorder.Learn.Teacher.{Teacher, Mode, is_plus_plus}
use dorder.Learn.Bases.{Basis, compute_m_of_x_xor_a}

-- A basis whose `H` is NULL.
pub record Support : Type 0 where
  pub points : List Bits
  pub origin : Bits

abbrev pub is_empty {ℓ} : {A : Type ℓ} → List A → Bool
is_empty [] = true
is_empty (x ∷ xs) = false

-- The monomial of the point `v` at the basis of `a`: M_DNF (v ^ a), at x ^ a.
unfoldable pub monomial_at : Bits → Bits → Run Monomial
unfolding monomial_m_dnf compute_m_of_x_xor_a
monomial_at a x = do m ← monomial_m_dnf x; compute_m_of_x_xor_a m a

unfoldable pub rebuild_points : Bits → List Bits → Run Disjunction
unfolding monomial_at
rebuild_points a [] = done []
rebuild_points a (v ∷ vs) = do
  x ← xor_of v a
  z ← is_zeros x
  assert (not z)
  m ← monomial_at a x
  ms ← rebuild_points a vs
  done (m ∷ ms)

unfoldable pub rebuild_disjunctions : List Support → Run (List Basis)
unfolding rebuild_points
rebuild_disjunctions [] = done []
rebuild_disjunctions (s ∷ ss) = do
  h ← rebuild_points s.origin s.points
  bs ← rebuild_disjunctions ss
  done (record { h = h; t = s.points; a = s.origin } ∷ bs)

module _ (teacher : Teacher) where
  -- Extends `v` to v + b if that is a member, else to v + !b.
  unfoldable pub extend_point : ℕ → Bool → Bits → Run Bits
  extend_point l b v = do
    assert (length v == l)
    v' ← put (extend v false) l b
    let c = if teacher.membership v' then b else not b
    if xor c b then put v' l c else done v'

  unfoldable pub extend_points : ℕ → Bool → List Bits → Run (List Bits)
  unfolding extend_point
  extend_points l b [] = done []
  extend_points l b (v ∷ vs) = do
    v' ← extend_point l b v
    vs' ← extend_points l b vs
    done (v' ∷ vs')

  -- The value of the new variable in a basis whose vector is already extended by FALSE.
  abbrev pub extension : Mode → Bits → Bool
  extension mode a =
      if is_plus_plus mode then (if teacher.comembership a then false else true) else false

  -- The loop over the bases. The last one is dropped if it has no support.
  unfoldable pub strip_bases : Mode → List Basis → Run (List Support)
  unfolding extend_points
  strip_bases mode [] = done []
  strip_bases mode (b ∷ bases) = do
    let l = length b.a
    a ← put (extend b.a false) l false
    let e = extension mode a
    a' ← put a l e
    assert (is_empty bases || not (is_empty b.t))
    points ← extend_points l e b.t
    rest ← strip_bases mode bases
    if is_empty b.t
        then (assert (is_empty bases) >> done rest)
        else done (record { points = points; origin = a' } ∷ rest)

  unfoldable pub refine_bases : Mode → List Basis → Run (List Basis)
  unfolding strip_bases rebuild_disjunctions
  refine_bases mode bases = do stripped ← strip_bases mode bases; rebuild_disjunctions stripped
