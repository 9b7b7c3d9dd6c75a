-- ===== src/Examples/Parity.antt =====
-- cdnf.c with an exhaustive teacher for the parity of two variables.
use dorder.Prelude.{
  ℕ, ◌≡◌, ◌⊎◌, refl, List, All, some, none, pos, negsuc, Bool, true, false, xor, [], ◌∷◌, done,
  arith,
}
use dorder.Bits.{Bits, value_of}
use dorder.BoolFormula.{Lit, BoolFormula, literal, conjunct, disjunct, cons, nil, copy}
use dorder.BoolFormula.Meaning.{eval}
use dorder.CdnfFormula.{Monomial, to_boolformula}
use dorder.CdnfFormula.Meaning.{MonomialInRange}
use dorder.Learn.Bases.{Basis, get_conjecture}
use dorder.Learn.Refine.{refine_bases}
use dorder.Learn.Sound.{SupportPoint, IsSound, fix_basis-cases}
use dorder.Learn.Refined.{IsFull, refine_bases-done}
use dorder.Learn.Accepted.{learn-IsAccepted}
use dorder.Learn.Teacher.{plain, plus3}
use dorder.Learn.Unasked.{with_comembership, learn-with_comembership}
use dorder.Learn.Walk.{walk}
use dorder.Learn.Walk.Inv.{Walked, walk-Walked}
use dorder.Learn.Core.{clash, supported, fix_basis, learn, learn_core, loop, round, conjecture}
use dorder.Learn.Total.{Learns, learn-Learns}
use dorder.Learn.Exhaustive.{exhaustive, exhaustive-Honest, first_difference}

abbrev parity : Bits → Bool
parity v = xor (value_of v 1) (value_of v 2)

-- The bits 1 and 2 are `b` and `c`.
abbrev two_bits : Bool → Bool → Bits
two_bits b c = false ∷ b ∷ c ∷ []

learn-Learns_example : Learns 2 parity (learn (exhaustive parity) plain 1 25 2)
learn-Learns_example =
    learn-Learns (exhaustive parity) parity (exhaustive-Honest parity) plain 2 0 25 (omega arith)

walk-Walked_example :
    (w : Bits) × (walk parity (two_bits true true) (two_bits false true) ≡ done w)
    × Walked parity (two_bits true true) (two_bits false true) w
walk-Walked_example =
    walk-Walked parity (two_bits true true) (two_bits false true) (omega arith) refl

-- What the learner returns for the parity: (x₂ ∨ x₁) ∧ (¬x₁ ∨ ¬x₂).
abbrev learned : BoolFormula
learned = conjunct (
    cons (disjunct (cons (monomial (pos 2)) (cons (monomial (pos 1)) nil)))
      (cons (disjunct (cons (monomial (negsuc 0)) (cons (monomial (negsuc 1)) nil))) nil))
  where
    monomial : Lit → BoolFormula
    monomial l = conjunct (cons (literal l) nil)

learn-parity : learn (exhaustive parity) plain 1 25 2 ≡ done (some learned)
unfolding learn loop round conjecture copy eval first_difference learn_core to_boolformula
    get_conjecture
learn-parity = refl

learn-IsAccepted_example :
    (k : ℕ) × (n : ℕ) × ((exhaustive parity).equivalence k n (copy learned) ≡ none)
learn-IsAccepted_example = learn-IsAccepted (exhaustive parity) plain 1 25 2 learned learn-parity

-- The origin, with the support x₁.
abbrev basis : Basis
basis = record { h = (pos 1 ∷ []) ∷ []; t = two_bits true false ∷ []; a = two_bits false false }

IsSound-basis : IsSound 2 basis
IsSound-basis = record {
  origin = (refl, refl);
  supports = (((refl, refl), (1, omega arith, omega arith, refl)), tt);
  range = omega arith;
  paired = refl;
}

refine_bases-done_example :
    (bases' : List Basis) × (refine_bases (exhaustive parity) plain (basis ∷ []) ≡ done bases')
    × All (IsSound 3) bases'
    × All IsFull bases'
refine_bases-done_example =
    refine_bases-done (exhaustive parity) plain 2 (basis ∷ []) (IsSound-basis, tt) tt

fix_basis-cases_example :
    (fix_basis (exhaustive parity) plain basis (two_bits false true) ≡ done clash)
    ⊎ ((w : Bits) × (m : Monomial) × (fix_basis
            (exhaustive parity)
            plain
            basis
            (two_bits false true)
          ≡ done (supported w m))
        × SupportPoint 2 (two_bits false false) w
        × MonomialInRange 3 m)
fix_basis-cases_example =
    fix_basis-cases (exhaustive parity) plain 2 basis (two_bits false true) IsSound-basis
      (refl, refl)

-- A comembership callback that denies everything.
learn-with_comembership_example :
    learn (with_comembership (exhaustive parity) (λ v. false)) plus3 1 25 2
    ≡ learn (exhaustive parity) plus3 1 25 2
learn-with_comembership_example =
    learn-with_comembership (exhaustive parity) (λ v. false) plus3 refl 1 25 2
