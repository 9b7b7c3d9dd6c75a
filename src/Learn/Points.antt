-- ===== src/Learn/Points.antt =====
-- The monomial that cdnf.c adds for a point `v` at a basis `a`: `monomial_at`, which is
-- `cdnfformula_monomial_M_DNF` followed by `compute_m_of_x_xor_a`.
use dorder.Prelude.{
  ℕ, zero, suc, pos, negsuc, negate, abs, ◌≤◌, ◌<◌, ◌≡◌, refl, true, false, not, [], ◌∷◌, map, done,
  arith, length, lt→ltb, Bool-cases, inl, inr, if◌then◌else◌, suc-==-zero,
}
use dorder.Bits.{Bits, value_of}
use dorder.Bits.Laws.{get-done}
use dorder.BoolFormula.{Lit}
use dorder.BoolFormula.Meaning.{Assignment}
use dorder.CdnfFormula.{Monomial}
use dorder.CdnfFormula.Meaning.{MonomialInRange, holds_monomial}
use dorder.CdnfFormula.Mdnf.{variables, variables-InRange, monomial_m_dnf-done}
use dorder.Learn.Bases.{compute_m_of_x_xor_a}
use dorder.Learn.Refine.{monomial_at}

abbrev pub flip_at : Assignment → Lit → Lit
flip_at α l = if α (abs l) then negate l else l

compute-done :
    (m : Monomial) (a : Bits)
    → MonomialInRange (length a) m
    → compute_m_of_x_xor_a m a ≡ done (map (flip_at (value_of a)) m)
unfolding compute_m_of_x_xor_a
compute-done [] a h = refl
compute-done (pos zero ∷ m) a h = absurd (omega (arith, h.0.0))
compute-done (pos (suc n) ∷ m) a h = elim (Bool-cases (value_of a (suc n))) [
  | inl s ↦
      rw
        (
          suc-==-zero n,
          lt→ltb (suc n) (length a) h.0.1,
          get-done a (suc n) h.0.1,
          s,
          compute-done m a h.1,
        )
        refl
  | inr s ↦
      rw
        (
          suc-==-zero n,
          lt→ltb (suc n) (length a) h.0.1,
          get-done a (suc n) h.0.1,
          s,
          compute-done m a h.1,
        )
        refl
]
compute-done (negsuc n ∷ m) a h = elim (Bool-cases (value_of a (suc n))) [
  | inl s ↦
      rw
        (
          suc-==-zero n,
          lt→ltb (suc n) (length a) h.0.1,
          get-done a (suc n) h.0.1,
          s,
          compute-done m a h.1,
        )
        refl
  | inr s ↦
      rw
        (
          suc-==-zero n,
          lt→ltb (suc n) (length a) h.0.1,
          get-done a (suc n) h.0.1,
          s,
          compute-done m a h.1,
        )
        refl
]

-- The monomial, over the bits `x` of the difference and the bits `α` of the basis.
abbrev pub point_monomial : ℕ → Assignment → Assignment → Monomial
point_monomial n α x = map (flip_at α) (variables n x)

pub point_monomial-InRange :
    (i n : ℕ) (α x : Assignment) → i < n → MonomialInRange n (point_monomial i α x)
point_monomial-InRange zero n α x h = tt
point_monomial-InRange (suc i) n α x h = elim (Bool-cases (x (suc i))) [
  | inl s ↦ elim (Bool-cases (α (suc i))) [
    | inl t ↦ rw (s, t) ((omega arith, omega arith), point_monomial-InRange i n α x (omega arith))
    | inr t ↦ rw (s, t) ((omega arith, omega arith), point_monomial-InRange i n α x (omega arith))
  ]
  | inr c ↦ rw c (point_monomial-InRange i n α x (omega arith))
]

pub monomial_at-done :
    (n j : ℕ) (a x : Bits)
    → length a ≡ suc n
    → length x ≡ suc n
    → 0 < j
    → j ≤ n
    → value_of x j ≡ true
    → monomial_at a x ≡ done (point_monomial n (value_of a) (value_of x))
unfolding monomial_at
monomial_at-done n j a x la lx p q s =
    unfold monomial_at in
    rw (monomial_m_dnf-done n j x lx p q s) (
      compute-done (variables n (value_of x)) a
        (variables-InRange n (length a) (value_of x) (omega arith)))

-- An assignment that differs from the basis at every variable of the difference is covered.
pub covers :
    (n : ℕ) (α x ρ : Assignment)
    → ((i : ℕ) → 0 < i → i ≤ n → x i ≡ true → ρ i ≡ not (α i))
    → holds_monomial ρ (point_monomial n α x) ≡ true
covers zero α x ρ h = refl
covers (suc n) α x ρ h =
    let rest = covers n α x ρ (λ i p q. h i p (omega arith)) in
    let here = h (suc n) (omega arith) (omega arith) in
    elim (Bool-cases (x (suc n))) [
      | inr c ↦ rw c rest
      | inl s ↦ elim (Bool-cases (α (suc n))) [
        | inl t ↦ rw (s, t, rest, here s, t) refl
        | inr t ↦ rw (s, t, rest, here s, t) refl
      ]
    ]

-- An assignment that agrees with the basis at a variable of the difference is not.
pub excludes :
    (n i : ℕ) (α x ρ : Assignment)
    → 0 < i
    → i ≤ n
    → x i ≡ true
    → ρ i ≡ α i
    → holds_monomial ρ (point_monomial n α x) ≡ false
excludes zero i α x ρ p q s e = absurd (omega arith)
excludes (suc n) i α x ρ p q s e = ground (arith, excludes n i α x ρ p)
