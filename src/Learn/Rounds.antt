-- ===== src/Learn/Rounds.antt =====
-- One round of `learn_core` of cdnf.c against an honest teacher.
use dorder.Prelude.{
  ℕ, suc, ◌+◌, ◌≤◌, ◌<◌, ◌≡◌, ◌≢◌, refl, ap, ◌∙◌, Bool, true, false, List, [], ◌∷◌, arith, length,
  some, set, get_elem?, Run, done, All, All-get, All-set, All-concat, All-imp, get_elem?-some,
  get_elem?-lt, length-set, eq→==, ◌==◌,
}
use dorder.Bits.{Bits, value_of}
use dorder.BoolFormula.{copy}
use dorder.BoolFormula.Meaning.{eval, copy_lem}
use dorder.CdnfFormula.{Monomial, to_boolformula}
use dorder.CdnfFormula.Meaning.{
  holds_conjunction, holds_disjunction-concat, eval-to_boolformula, MonomialInRange,
}
use dorder.Learn.Teacher.{Teacher, Mode}
use dorder.Learn.Bases.{Basis, add_basis, get_conjecture, indices_from}
use dorder.Learn.Core.{Next, continue, add_support, conjecture, fix_bases, on_all_true, round}
use dorder.Learn.Honest.{Point, Honest, IsGood, Fits, fix_basis-Fits}
use dorder.Learn.Measure.{
  potential, potential-add_basis, potential-le, potential-lt, is_origin, is_origin-false,
}
use dorder.Learn.Indices.{FailsAt, HoldsAt, indices_from-done, holds-All, fails-one}

module _ (teacher : Teacher) (target : Bits → Bool) (honest : Honest teacher target) (mode : Mode)
    (n : ℕ) where
  pub conjecture-eq :
      (bases : List Basis) (x : Bits)
      → eval (value_of x) (copy (conjecture teacher mode bases))
        ≡ holds_conjunction (value_of x) (get_conjecture bases)
  unfolding conjecture
  conjecture-eq bases x =
      rw (copy_lem (to_boolformula (get_conjecture bases)))
        (eval-to_boolformula (value_of x) (get_conjecture bases))

  pub IsGood-first :
      (v : Bits) → Point n v → target v ≡ false → IsGood n target (record { h = []; t = []; a = v })
  IsGood-first v p f = record { origin = p; negative = f; off = refl; range = tt }

  IsGood-support :
      (b : Basis) (v w : Bits) (m : Monomial)
      → IsGood n target b
      → Fits n b.a v m
      → IsGood n target (add_support b w m)
  IsGood-support b v w m g f = record {
    origin = g.origin;
    negative = g.negative;
    off = ground (arith, holds_disjunction-concat (value_of b.a) b.h m, g.off, f.at_origin);
    range = All-concat (MonomialInRange (suc n)) b.h m g.range f.range;
  }

  -- A round's outcome: the loop goes on with good bases of a potential below the bound.
  abbrev GoesOn : ℕ → Run Next → Type 0
  GoesOn bound r =
      (bases : List Basis) × (r ≡ done (continue bases n))
      × All (IsGood n target) bases
      × (potential n bases < bound)

  module _ (v : Bits) (pv : Point n v) where
    module _ (positive : target v ≡ true) where
      -- What the body of the loop over the indices does at one of them.
      fix_one :
          (i : ℕ) (is : List ℕ) (bases : List Basis) (b : Basis)
          → get_elem? bases i ≡ some b
          → All (IsGood n target) bases
          → (w : Bits) × (m : Monomial) × (fix_bases teacher mode (i ∷ is) v bases n
              ≡ fix_bases teacher mode is v (set bases i (add_support b w m)) n)
            × All (IsGood n target) (set bases i (add_support b w m))
            × Fits n b.a v m
      unfolding fix_bases
      fix_one i is bases b at good =
          let gb = All-get (IsGood n target) bases i good at in
          let (w, m, e, f) = fix_basis-Fits teacher target honest mode n b v gb pv positive in
          (
            w,
            m,
            rw (at, e) refl,
            All-set (IsGood n target) bases i (add_support b w m) good
                (IsGood-support b v w m gb f),
            f,
          )

      -- The loop over the indices ends without a clash.
      fix_bases-done :
          (is : List ℕ) (bases : List Basis)
          → All (λ i. i < length bases) is
          → All (IsGood n target) bases
          → (bases' : List Basis) × (fix_bases teacher mode is v bases n ≡ done (continue bases' n))
            × All (IsGood n target) bases'
            × (potential n bases' ≤ potential n bases)
      unfolding fix_bases
      fix_bases-done [] bases inside good = (bases, refl, good, omega arith)
      fix_bases-done (i ∷ is) bases inside good =
          let (b, at) = get_elem?-some bases i inside.0 in
          let (w, m, e, good', f) = fix_one i is bases b at good in
          let (bases', e', good'', le) =
            fix_bases-done is (set bases i (add_support b w m))
              (All-imp (λ j p. omega (arith, p, length-set bases i (add_support b w m))) is
                inside.1)
              good' in
          (bases', e ∙ e', good'', omega (arith, potential-le n bases i b w m at))

      -- With a first index at which the disjunction is false, the potential falls.
      fix_bases-GoesOn :
          (i : ℕ) (is : List ℕ) (bases : List Basis)
          → All (FailsAt 0 bases v) (i ∷ is)
          → All (IsGood n target) bases
          → GoesOn (potential n bases) (fix_bases teacher mode (i ∷ is) v bases n)
      fix_bases-GoesOn i is bases fails good =
          let (k, b, p, q, r) = fails.0 in
          let at : get_elem? bases i ≡ some b = ap (λ j. get_elem? bases j) (at_zero i k p) ∙ q in
          let (w, m, e, good', f) = fix_one i is bases b at good in
          let (bases', e', good'', le) =
            fix_bases-done is (set bases i (add_support b w m))
              (All-imp (λ j f. omega (arith, length-set bases i (add_support b w m), in_range j f))
                is fails.1)
              good' in
          (bases', e ∙ e', good'', omega (arith, potential-lt n bases i b w m at v pv r f.at_point))
        where
          at_zero : (i k : ℕ) → i ≡ 0 + k → i ≡ k
          at_zero i k p = omega arith

          in_range : (j : ℕ) → FailsAt 0 bases v j → j < length bases
          in_range j (k, b, p, q, r) = omega (arith, get_elem?-lt bases k q)

    no_origin :
        (bases : List Basis)
        → All (IsGood n target) bases
        → All (HoldsAt v) bases
        → is_origin bases v ≡ false
    no_origin [] good h = refl
    no_origin (b ∷ bases) good h =
        is_origin-false v b bases good.0.off h.0 (no_origin bases good.1 h.1)

    -- If all disjunctions are true at the counterexample, it becomes a basis.
    on_all_true-GoesOn :
        (bases : List Basis)
        → All (IsGood n target) bases
        → All (HoldsAt v) bases
        → target v ≡ false
        → GoesOn (potential n bases) (on_all_true teacher mode v bases n)
    unfolding on_all_true
    on_all_true-GoesOn bases good h negative = (
      add_basis bases v,
      not_refined (honest.members v ∙ negative),
      IsGood-added,
      potential-add_basis n bases v pv (no_origin bases good h),
    )
      where
        not_refined :
            teacher.membership v ≡ false
            → on_all_true teacher mode v bases n ≡ done (continue (add_basis bases v) n)
        not_refined e = ground (arith, e)

        IsGood-added : All (IsGood n target) (add_basis bases v)
        IsGood-added =
            All-concat (IsGood n target) bases (record { h = []; t = []; a = v }) good
              (IsGood-first v pv negative)

    -- A counterexample to the conjecture makes the round go on, and the potential fall.
    pub round-GoesOn :
        (bases : List Basis)
        → All (IsGood n target) bases
        → eval (value_of v) (copy (conjecture teacher mode bases)) ≢ target v
        → GoesOn (potential n bases) (round teacher mode v bases n)
    unfolding round
    round-GoesOn bases good differs =
        let (is, e, fails, full) = indices_from-done n target v pv 0 bases good in
        let size = eq→== (length v) (n + 1) (omega (arith, pv.0)) in
        let value = conjecture-eq bases v in cases is e fails full size (λ q. differs (value ∙ q))
      where
        other : (b : Bool) → true ≢ b → b ≡ false
        other true h = absurd (h refl)
        other false h = refl

        other' : (b : Bool) → false ≢ b → b ≡ true
        other' true h = refl
        other' false h = absurd (h refl)

        cases :
            (is : List ℕ)
            → indices_from 0 bases v ≡ done is
            → All (FailsAt 0 bases v) is
            → (is ≡ [] → All (HoldsAt v) bases)
            → (length v == (n + 1)) ≡ true
            → holds_conjunction (value_of v) (get_conjecture bases) ≢ target v
            → GoesOn (potential n bases) (round teacher mode v bases n)
        cases [] e fails full size differs' =
            rw (size, e)
              (on_all_true-GoesOn bases good (full refl)
                (other _ (rw (holds-All v bases (full refl)) at differs')))
        cases (i ∷ is) e fails full size differs' =
            let (k, b, p, q, r) = fails.0 in
            rw (size, e)
              (fix_bases-GoesOn (other' _ (rw (fails-one v bases k b q r) at differs')) i is bases
                fails good)
