-- ===== src/Learn/Honest.antt =====
-- cdnf.c against a teacher that answers about one Boolean function: what one counterexample does to
-- a basis.
use dorder.Prelude.{
  ℕ, zero, suc, ◌≤◌, ◌<◌, ◌≡◌, ◌≢◌, refl, ap, sym, ◌∙◌, Bool, true, false, not, xor, done, ◌⊎◌, inl,
  inr, arith, Bool-cases, length, none, some, suc-==-zero,
}
use dorder.Bits.{Bits, value_of, xor_bits, all_zeros}
use dorder.Bits.Laws.{
  eq_of_bits, all_zeros-true, all_zeros-false, value_of-xor_bits, length-xor_bits, xor_of-done,
}
use dorder.BoolFormula.{BoolFormula}
use dorder.BoolFormula.Meaning.{eval}
use dorder.CdnfFormula.{Monomial}
use dorder.CdnfFormula.Meaning.{
  holds_monomial, holds_disjunction, MonomialInRange, DisjunctionInRange,
}
use dorder.Learn.Teacher.{Teacher, Mode}
use dorder.Learn.Bases.{Basis}
use dorder.Learn.Walk.{walk}
use dorder.Learn.Walk.Inv.{Walked, walk-Walked}
use dorder.Learn.Core.{supported, fix_basis}
use dorder.Learn.Points.{point_monomial, point_monomial-InRange, monomial_at-done, covers, excludes}

-- An assignment to the variables 1 to `n`, as the callers pass it: bit 0 is not used and false.
abbrev pub Point : ℕ → Bits → Type 0
Point n x = (length x ≡ suc n) × (value_of x 0 ≡ false)

-- A teacher that answers truthfully about `target`.
pub record Honest (teacher : Teacher) (target : Bits → Bool) : Type 0 where
  pub members : (v : Bits) → teacher.membership v ≡ target v
  pub accepted :
      (k n : ℕ) (b : BoolFormula)
      → teacher.equivalence k n b ≡ none
      → (x : Bits) → Point n x
      → eval (value_of x) b ≡ target x
  pub refuted :
      (k n : ℕ) (b : BoolFormula) (v : Bits)
      → teacher.equivalence k n b ≡ some v
      → Point n v × (eval (value_of v) b ≢ target v)

-- A basis of a function's run: `a` is a point at which the function and the disjunction are false.
pub record IsGood (n : ℕ) (target : Bits → Bool) (b : Basis) : Type 0 where
  pub origin : Point n b.a
  pub negative : target b.a ≡ false
  pub off : holds_disjunction (value_of b.a) b.h ≡ false
  pub range : DisjunctionInRange (suc n) b.h

-- The monomial found for `v` at the basis of `a`.
pub record Fits (n : ℕ) (a v : Bits) (m : Monomial) : Type 0 where
  pub at_point : holds_monomial (value_of v) m ≡ true
  pub at_origin : holds_monomial (value_of a) m ≡ false
  pub range : MonomialInRange (suc n) m

module _ (n : ℕ) (a v w : Bits) (pa : Point n a) (lw : length w ≡ suc n) where
  abbrev diff : Bits
  diff = xor_bits w a

  size_diff : length diff ≡ suc n
  size_diff = omega (arith, length-xor_bits w a (omega arith))

  diff_bit : (i : ℕ) → value_of diff i ≡ xor (value_of w i) (value_of a i)
  diff_bit i = value_of-xor_bits w a i (omega arith)

  xor-false : (b c : Bool) → xor b c ≡ false → b ≡ c
  xor-false b c h = ground arith

  no_diff : all_zeros diff ≡ true → w ≡ a
  no_diff z =
      eq_of_bits w a (omega arith)
        (λ i. xor-false (value_of w i) (value_of a i) (sym (diff_bit i) ∙ all_zeros-true diff i z))

  Fits-point :
      ((i : ℕ) → (value_of w i ≡ value_of a i) ⊎ (value_of w i ≡ value_of v i))
      → (j : ℕ) → 0 < j
      → j ≤ n
      → value_of diff j ≡ true
      → Fits n a v (point_monomial n (value_of a) (value_of diff))
  Fits-point bits j p q s = record {
    at_point = covers n (value_of a) (value_of diff) (value_of v) (λ i _ _ d.
        agrees (value_of w i) (value_of a i) (value_of v i) (bits i) (sym (diff_bit i) ∙ d));
    at_origin = excludes n j (value_of a) (value_of diff) (value_of a) p q s refl;
    range = point_monomial-InRange n (suc n) (value_of a) (value_of diff) (omega arith);
  }
    where
      agrees : (b c d : Bool) → (b ≡ c) ⊎ (b ≡ d) → xor b c ≡ true → d ≡ not c
      agrees b c d h e = ground arith

module _ (teacher : Teacher) (target : Bits → Bool) (honest : Honest teacher target) (mode : Mode)
    (n : ℕ) where
  first_bit : (b c d : Bool) → (b ≡ c) ⊎ (b ≡ d) → c ≡ false → d ≡ false → xor b c ≡ true → ⊥
  first_bit b c d h p q e = ground arith

  -- At a basis of the run and for a positive counterexample there is no clash, and the monomial
  -- that is found holds at the counterexample and not at the basis.
  pub fix_basis-Fits :
      (b : Basis) (v : Bits)
      → IsGood n target b
      → Point n v
      → target v ≡ true
      → (w : Bits) × (m : Monomial) × (fix_basis teacher mode b v ≡ done (supported w m))
        × Fits n b.a v m
  unfolding fix_basis
  fix_basis-Fits b v good pv positive =
      let (w, walked, r) =
        walk-Walked teacher.membership b.a v (omega (arith, good.origin.0))
          (omega (arith, good.origin.0, pv.0)) in
      finish w walked r (Bool-cases (all_zeros (xor_bits w b.a)))
    where
      finish :
          (w : Bits)
          → walk teacher.membership b.a v ≡ done w
          → Walked teacher.membership b.a v w
          → (all_zeros (xor_bits w b.a) ≡ true) ⊎ (all_zeros (xor_bits w b.a) ≡ false)
          → (w' : Bits) × (m : Monomial) × (fix_basis teacher mode b v ≡ done (supported w' m))
            × Fits n b.a v m
      finish w walked r (inl z) =
          let lw = r.between.size ∙ good.origin.0 in
          let e = no_diff n b.a v w good.origin lw z in
          elim r.between.member [
            | inl m ↦ absurd (clash (sym (honest.members w) ∙ m) (ap target e ∙ good.negative))
            | inr start ↦ absurd (clash (ap target start ∙ positive) (ap target e ∙ good.negative))
          ]
        where
          clash : {x : Bool} → x ≡ true → x ≡ false → ⊥
          clash p q = cc
      finish w walked r (inr z) =
          let lw = r.between.size ∙ good.origin.0 in
          let (j, inside, s) = all_zeros-false (xor_bits w b.a) z in
          let p : 0 < j = positive_index j s in
          let q : j ≤ n = omega (arith, size_diff n b.a v w good.origin lw) in
          (
            w,
            point_monomial n (value_of b.a) (value_of (xor_bits w b.a)),
            rw
                (
                  walked,
                  xor_of-done w b.a (lw ∙ sym good.origin.0),
                  size_diff n b.a v w good.origin lw,
                  suc-==-zero n,
                  z,
                  monomial_at-done n j b.a (xor_bits w b.a) good.origin.0
                      (size_diff n b.a v w good.origin lw) p q s,
                )
                refl,
            Fits-point n b.a v w good.origin lw r.between.bits j p q s,
          )
        where
          positive_index : (j : ℕ) → value_of (xor_bits w b.a) j ≡ true → 0 < j
          positive_index zero s = absurd (
              first_bit (value_of w 0) (value_of b.a 0) (value_of v 0) (r.between.bits 0)
                good.origin.1 pv.1
                (sym (diff_bit n b.a v w good.origin (r.between.size ∙ good.origin.0) 0) ∙ s))
          positive_index (suc j) s = omega arith
