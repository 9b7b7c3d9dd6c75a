-- ===== src/Learn/Indices.antt =====
-- `get_indices_to_modify` of cdnf.c on good bases.
use dorder.Prelude.{
  ℕ, zero, suc, ◌+◌, ◌≡◌, refl, Bool, true, false, List, [], ◌∷◌, inl, inr, arith, Bool-cases, some,
  get_elem?, done, All, All-imp,
}
use dorder.Bits.{Bits, value_of}
use dorder.CdnfFormula.Meaning.{holds_disjunction, holds_conjunction, eval_m_dnf-done}
use dorder.Learn.Bases.{Basis, get_conjecture, indices_from}
use dorder.Learn.Honest.{Point, IsGood}

-- The disjunction of the basis that stands `k` places on from the index `i` is false at `v`.
abbrev pub FailsAt : ℕ → List Basis → Bits → ℕ → Type 0
FailsAt i bases v j =
    (k : ℕ) × (b : Basis) × (j ≡ i + k)
    × (get_elem? bases k ≡ some b)
    × (holds_disjunction (value_of v) b.h ≡ false)

abbrev pub HoldsAt : Bits → Basis → Type 0
HoldsAt v b = holds_disjunction (value_of v) b.h ≡ true

module _ (n : ℕ) (target : Bits → Bool) (v : Bits) (pv : Point n v) where
  -- The indices found are those of the disjunctions that are false at `v`.
  pub indices_from-done :
      (i : ℕ) (bases : List Basis)
      → All (IsGood n target) bases
      → (is : List ℕ) × (indices_from i bases v ≡ done is)
        × All (FailsAt i bases v) is
        × (is ≡ [] → All (HoldsAt v) bases)
  unfolding indices_from
  indices_from-done i [] good = ([], refl, tt, λ _. tt)
  indices_from-done i (b ∷ bases) good =
      let (is, e, fails, full) = indices_from-done (suc i) bases good.1 in
      let here = eval_m_dnf-done b.h v (rw pv.0 good.0.range) in
      let shift = λ (j : ℕ) (f : FailsAt (suc i) bases v j).
        let (k, c, p, q, r) = f in
        let result : FailsAt i (b ∷ bases) v j = (suc k, c, omega (arith, p), q, r) in result in
      elim (Bool-cases (holds_disjunction (value_of v) b.h)) [
        | inl t ↦ (is, rw (here, t, e) refl, All-imp shift is fails, λ h. (t, full h))
        | inr f ↦ (
          i ∷ is,
          rw (here, f, e) refl,
          ((0, b, omega arith, refl, f), All-imp shift is fails),
          λ h. cc,
        )
      ]

pub holds-All :
    (v : Bits) (bases : List Basis)
    → All (HoldsAt v) bases
    → holds_conjunction (value_of v) (get_conjecture bases) ≡ true
unfolding get_conjecture
holds-All v [] h = refl
holds-All v (b ∷ bases) h = rw (h.0, holds-All v bases h.1)

pub fails-one :
    (v : Bits) (bases : List Basis) (k : ℕ) (b : Basis)
    → get_elem? bases k ≡ some b
    → holds_disjunction (value_of v) b.h ≡ false
    → holds_conjunction (value_of v) (get_conjecture bases) ≡ false
unfolding get_conjecture
fails-one v [] k b e f = cc
fails-one v (c ∷ bases) zero b e f = ground arith
fails-one v (c ∷ bases) (suc k) b e f = rw (fails-one v bases k b e f) (ground arith)
