-- ===== src/Learn/Accepted.antt =====
-- The formula that the learner of cdnf.c returns, and the teacher's answer about it.
use dorder.Prelude.{
  ℕ, zero, suc, ◌+◌, ◌≡◌, ◌∙◌, subst, List, [], done, >>=-eq-done, inl, inr, Bool-cases,
  Option-cases, Option, none, some, assert, ◌==◌, length,
}
use dorder.BoolFormula.{BoolFormula, copy}
use dorder.Learn.Teacher.{Teacher, Mode, is_plus}
use dorder.Learn.Bases.{Basis, add_basis}
use dorder.Learn.Core.{
  Next, continue, conflict, conjecture, round, loop, learn_core, restart, learn,
}

module _ (teacher : Teacher) (mode : Mode) where
  -- Some query about this formula, or rather its copy, was answered by "equal".
  abbrev pub IsAccepted : BoolFormula → Type 0
  IsAccepted f = (k : ℕ) × (n : ℕ) × (teacher.equivalence k n (copy f) ≡ none)

  same_formula : (f g : BoolFormula) → done (some f) ≡ done (some g) → f ≡ g
  same_formula f g e = cc

  loop-IsAccepted :
      (fuel k : ℕ) (bases : List Basis) (n : ℕ) (f : BoolFormula)
      → loop teacher mode fuel k bases n ≡ done (some f)
      → IsAccepted f
  unfolding loop
  loop-IsAccepted zero k bases n f e = cc
  loop-IsAccepted (suc fuel) k bases n f e =
      elim (Option-cases (teacher.equivalence k n (copy (conjecture teacher mode bases)))) [
        | inl q ↦ (
          k,
          n,
          subst (λ g. teacher.equivalence k n (copy g) ≡ none)
              (same_formula _ f (rw (q, loop) at e)) q,
        )
        | inr (v, q) ↦
            let (next, r, rest) =
              >>=-eq-done (round teacher mode v bases n) _ (rw (q, loop) at e) in
            after (λ k bases n. loop-IsAccepted fuel k bases n f) next rest
      ]
    where
      after :
          ((k : ℕ) (bases : List Basis) (n : ℕ)
            → loop teacher mode fuel k bases n ≡ done (some f)
            → IsAccepted f)
          → (next : Next)
          → (elim next [
            | conflict ↦ done none
            | continue bases' num_vars' ↦ loop teacher mode fuel (suc k) bases' num_vars'
          ])
            ≡ done (some f)
          → IsAccepted f
      after ih conflict e = cc
      after ih (continue bases' n') e = ih (suc k) bases' n' e

  learn_core-IsAccepted :
      (fuel n : ℕ) (f : BoolFormula) → learn_core teacher mode fuel n ≡ done (some f) → IsAccepted f
  unfolding learn_core
  learn_core-IsAccepted fuel n f e =
      elim (Option-cases (teacher.equivalence 0 n (copy (conjecture teacher mode [])))) [
        | inl q ↦ (
          0,
          n,
          subst (λ g. teacher.equivalence 0 n (copy g) ≡ none)
              (same_formula _ f (rw (q, learn_core) at e)) q,
        )
        | inr (v, q) ↦
            let (_, _, rest) =
              >>=-eq-done (assert (length v == (n + 1))) _ (rw (q, learn_core) at e) in
            loop-IsAccepted fuel 1 (add_basis [] v) n f rest
      ]

  restart-IsAccepted :
      (tries fuel n : ℕ) (f : BoolFormula)
      → restart teacher mode tries fuel n ≡ done (some f)
      → IsAccepted f
  unfolding restart
  restart-IsAccepted zero fuel n f e = cc
  restart-IsAccepted (suc tries) fuel n f e =
      let (r, q, rest) = >>=-eq-done (learn_core teacher mode fuel n) _ e in
      cases (restart-IsAccepted tries fuel (n + 1) f) r q rest
    where
      cases :
          (restart teacher mode tries fuel (n + 1) ≡ done (some f) → IsAccepted f)
          → (r : Option BoolFormula) → learn_core teacher mode fuel n ≡ done r
          → (elim r [ some g ↦ done (some g) | none ↦ restart teacher mode tries fuel (n + 1) ])
            ≡ done (some f)
          → IsAccepted f
      cases ih none q e = ih e
      cases ih (some g) q e = learn_core-IsAccepted fuel n f (q ∙ e)

  -- If `learn` returns a formula, then in every mode and whatever the teacher, a query about a
  -- copy of this formula was answered by "equal".
  pub learn-IsAccepted :
      (tries fuel n : ℕ) (f : BoolFormula)
      → learn teacher mode tries fuel n ≡ done (some f)
      → IsAccepted f
  unfolding learn
  learn-IsAccepted tries fuel n f e = elim (Bool-cases (is_plus mode)) [
    | inl p ↦ restart-IsAccepted tries fuel n f (rw p at e)
    | inr p ↦ learn_core-IsAccepted fuel n f (rw p at e)
  ]
