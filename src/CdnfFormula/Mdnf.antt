-- ===== src/CdnfFormula/Mdnf.antt =====
-- `cdnfformula_monomial_M_DNF` of cdnfformula.c: the variables that are set in a bit vector.
use dorder.Prelude.{
  ℕ, zero, suc, pos, ◌≤◌, ◌<◌, ◌≡◌, refl, ap, ◌∙◌, Bool, true, [], ◌∷◌, ◌++◌, done, arith,
  suc-==-zero, length, lt→ltb, Bool-cases, inl, inr, if◌then◌else◌,
}
use mathlib.Core.List.{append-nil, append_assoc}
use dorder.Bits.{Bits, value_of}
use dorder.Bits.Laws.{get-done}
use dorder.CdnfFormula.{Monomial, m_dnf_loop, monomial_m_dnf}
use dorder.CdnfFormula.Meaning.{MonomialInRange}

-- The variables from `i` down to 1 that are set.
abbrev pub variables : ℕ → (ℕ → Bool) → Monomial
variables zero x = []
variables (suc i) x = if x (suc i) then pos (suc i) ∷ variables i x else variables i x

m_dnf_loop-done :
    (i : ℕ) (bv : Bits) (m : Monomial)
    → i < length bv
    → m_dnf_loop i bv m ≡ done (m ++ variables i (value_of bv))
unfolding m_dnf_loop
m_dnf_loop-done zero bv m h = rw append-nil
m_dnf_loop-done (suc i) bv m h = elim (Bool-cases (value_of bv (suc i))) [
  | inl set_ ↦
      rw (get-done bv (suc i) h, set_, suc-==-zero i)
        (m_dnf_loop-done i bv (m ++ pos (suc i) ∷ []) (omega arith)
          ∙ ap done (append_assoc m (pos (suc i) ∷ []) (variables i (value_of bv))))
  | inr clear ↦ rw (get-done bv (suc i) h, clear) (m_dnf_loop-done i bv m (omega arith))
]

variables_pos : (i j : ℕ) (x : ℕ → Bool) → 0 < j → j ≤ i → x j ≡ true → 0 < length (variables i x)
variables_pos zero j x p q e = absurd (omega arith)
variables_pos (suc i) j x p q e = elim (Bool-cases (x (suc i))) [
  | inl s ↦ rw s (omega arith)
  | inr c ↦ rw c (variables_pos i j x p (ground arith) e)
]

-- Of a vector with a bit set beside bit 0 `cdnfformula_monomial_M_DNF` returns the variables that
-- are set; in particular its last assertion does not fail.
pub monomial_m_dnf-done :
    (n j : ℕ) (bv : Bits)
    → length bv ≡ suc n
    → 0 < j
    → j ≤ n
    → value_of bv j ≡ true
    → monomial_m_dnf bv ≡ done (variables n (value_of bv))
unfolding monomial_m_dnf
monomial_m_dnf-done n j [] e p q s = absurd (omega arith)
monomial_m_dnf-done n j (b ∷ bv) e p q s =
    let len : length bv ≡ n = omega arith in
    rw
      (
        len,
        m_dnf_loop-done n (b ∷ bv) [] (omega arith),
        lt→ltb 0 (length (variables n (value_of (b ∷ bv))))
            (variables_pos n j (value_of (b ∷ bv)) p q s),
      )
      refl

pub variables-InRange : (i n : ℕ) (x : ℕ → Bool) → i < n → MonomialInRange n (variables i x)
variables-InRange zero n x h = tt
variables-InRange (suc i) n x h = elim (Bool-cases (x (suc i))) [
  | inl s ↦ rw s ((omega arith, omega arith), variables-InRange i n x (omega arith))
  | inr c ↦ rw c (variables-InRange i n x (omega arith))
]
