-- ===== src/Learn/Sound.antt =====
-- The state of cdnf.c against any teacher: what holds of a basis, and what one counterexample does
-- to it.
use dorder.Prelude.{
  ℕ, zero, suc, ◌≤◌, ◌<◌, ◌≡◌, refl, sym, ◌∙◌, Bool, true, false, xor, [], ◌∷◌, done, ◌⊎◌, inl, inr,
  arith, Bool-cases, length, suc-==-zero, All, All-concat, length-append,
}
use dorder.Bits.{Bits, value_of, xor_bits, xor_of, all_zeros, is_zeros}
use dorder.Bits.Laws.{
  all_zeros-true, all_zeros-false, value_of-xor_bits, length-xor_bits, xor_of-done,
}
use dorder.CdnfFormula.{Monomial}
use dorder.CdnfFormula.Meaning.{MonomialInRange, DisjunctionInRange}
use dorder.Learn.Teacher.{Teacher, Mode}
use dorder.Learn.Bases.{Basis}
use dorder.Learn.Walk.Inv.{walk-Walked}
use dorder.Learn.Refine.{monomial_at}
use dorder.Learn.Core.{supported, clash, fix_basis, add_support}
use dorder.Learn.Points.{point_monomial, point_monomial-InRange, monomial_at-done}
use dorder.Learn.Honest.{Point}

-- Two points differ in a variable.
abbrev pub Differ : ℕ → Bits → Bits → Type 0
Differ n v a = (j : ℕ) × (0 < j) × (j ≤ n) × (xor (value_of v j) (value_of a j) ≡ true)

abbrev pub SupportPoint : ℕ → Bits → Bits → Type 0
SupportPoint n a v = Point n v × Differ n v a

-- A basis is a point; its supports are points that differ from it, one for each monomial.
pub record IsSound (n : ℕ) (b : Basis) : Type 0 where
  pub origin : Point n b.a
  pub supports : All (SupportPoint n b.a) b.t
  pub range : DisjunctionInRange (suc n) b.h
  pub paired : length b.h ≡ length b.t

module _ (n : ℕ) (a w : Bits) (pa : Point n a) (pw : Point n w) where
  size_xor : length (xor_bits w a) ≡ suc n
  size_xor = omega (arith, length-xor_bits w a (omega arith))

  xor_bit : (i : ℕ) → value_of (xor_bits w a) i ≡ xor (value_of w i) (value_of a i)
  xor_bit i = value_of-xor_bits w a i (omega arith)

  -- Both have bit 0 clear, so a difference is one of a variable.
  pub Differ-xor : all_zeros (xor_bits w a) ≡ false → Differ n w a
  Differ-xor z =
      let (j, p, s) = all_zeros-false (xor_bits w a) z in
      (j, positive j s, omega (arith, size_xor), sym (xor_bit j) ∙ s)
    where
      positive : (j : ℕ) → value_of (xor_bits w a) j ≡ true → 0 < j
      positive zero s = absurd (clash (value_of w 0) (value_of a 0) pw.1 pa.1 (sym (xor_bit 0) ∙ s))
        where
          clash : (b c : Bool) → b ≡ false → c ≡ false → xor b c ≡ true → ⊥
          clash b c p q e = ground arith
      positive (suc j) s = omega arith

  module _ (differ : Differ n w a) where
    pub zeros_differ : all_zeros (xor_bits w a) ≡ false
    zeros_differ = elim (Bool-cases (all_zeros (xor_bits w a))) [
      | inr e ↦ e
      | inl e ↦
          let (j, p, q, d) = differ in
          absurd (clash (all_zeros-true (xor_bits w a) j e) (xor_bit j ∙ d))
    ]
      where
        clash : {b : Bool} → b ≡ false → b ≡ true → ⊥
        clash p q = cc

    -- What the calls around `monomial_at` return.
    pub point_steps :
        (m : Monomial) × (xor_of w a ≡ done (xor_bits w a))
        × (is_zeros (xor_bits w a) ≡ done false)
        × (monomial_at a (xor_bits w a) ≡ done m)
        × MonomialInRange (suc n) m
    point_steps =
        let (j, p, q, d) = differ in
        (
          point_monomial n (value_of a) (value_of (xor_bits w a)),
          xor_of-done w a (omega arith),
          rw (size_xor, suc-==-zero n, zeros_differ) refl,
          monomial_at-done n j a (xor_bits w a) pa.0 size_xor p q (xor_bit j ∙ d),
          point_monomial-InRange n (suc n) (value_of a) (value_of (xor_bits w a)) (omega arith),
        )

module _ (teacher : Teacher) (mode : Mode) (n : ℕ) where
  between_zero : (b c d : Bool) → (b ≡ c) ⊎ (b ≡ d) → c ≡ false → d ≡ false → b ≡ false
  between_zero b c d h p q = ground arith

  -- At a sound basis and a vector of its length with bit 0 clear no assertion of `fix_basis` fails:
  -- it finds a clash, or a point that differs from the basis with a monomial in range.
  pub fix_basis-cases :
      (b : Basis) (v : Bits)
      → IsSound n b
      → Point n v
      → (fix_basis teacher mode b v ≡ done clash)
        ⊎ ((w : Bits) × (m : Monomial) × (fix_basis teacher mode b v ≡ done (supported w m))
            × SupportPoint n b.a w
            × MonomialInRange (suc n) m)
  unfolding fix_basis
  fix_basis-cases b v sound pv =
      let (w, walked, r) =
        walk-Walked teacher.membership b.a v (omega (arith, sound.origin.0))
          (omega (arith, sound.origin.0, pv.0)) in
      let pw : Point n w = (
        r.between.size ∙ sound.origin.0,
        between_zero (value_of w 0) (value_of b.a 0) (value_of v 0) (r.between.bits 0)
            sound.origin.1 pv.1,
      ) in
      elim (Bool-cases (all_zeros (xor_bits w b.a))) [
        | inl z ↦ inl (
            rw
              (
                walked,
                xor_of-done w b.a (omega (arith, sound.origin.0)),
                size_xor n b.a w sound.origin pw,
                suc-==-zero n,
                z,
              )
              refl)
        | inr z ↦
            let d = Differ-xor n b.a w sound.origin pw z in
            let (m, e, zero_, at, range) = point_steps n b.a w sound.origin pw d in
            inr (w, m, rw (walked, e, zero_, at) refl, (pw, d), range)
      ]

  pub IsSound-support :
      (b : Basis) (w : Bits) (m : Monomial)
      → IsSound n b
      → SupportPoint n b.a w
      → MonomialInRange (suc n) m
      → IsSound n (add_support b w m)
  IsSound-support b w m s p r = record {
    origin = s.origin;
    supports = All-concat (SupportPoint n b.a) b.t w s.supports p;
    range = All-concat (MonomialInRange (suc n)) b.h m s.range r;
    paired = omega (arith, s.paired, length-append b.h (m ∷ []), length-append b.t (w ∷ []));
  }
