-- ===== src/Learn/Safety.antt =====
-- The assertions of cdnf.c, and its NULL result, against any teacher.
use dorder.Prelude.{
  ℕ, zero, suc, ◌+◌, ◌≡◌, ◌≢◌, refl, Bool, true, false, ◌||◌, List, [], Run, done, failed,
  out_of_fuel, inl, inr, arith, Bool-cases, Option-cases, Option, none, some, length, eq→==,
}
use dorder.Bits.{Bits}
use dorder.BoolFormula.{BoolFormula, copy}
use dorder.Learn.Teacher.{Teacher, Mode, is_plus, is_plus_plus, is_plus3}
use dorder.Learn.Bases.{Basis, add_basis}
use dorder.Learn.Core.{
  Next, continue, conflict, conjecture, round, loop, learn_core, restart, learn,
}
use dorder.Learn.Honest.{Point}
use dorder.Learn.Keeps.{Inv, refines, Keeps, round-GoesOn}

-- The counterexamples are assignments to the variables of the query, as the callers' conversion
-- makes sure.
pub record IsShaped (teacher : Teacher) : Type 0 where
  pub counterexamples :
      (k n : ℕ) (b : BoolFormula) (v : Bits) → teacher.equivalence k n b ≡ some v → Point n v

-- No assertion failed, and in those modes the result is not NULL.
abbrev IsFine : Mode → Run (Option BoolFormula) → Type 0
IsFine mode r = (r ≢ failed) × (refines mode ≡ true → r ≢ done none)

module _ (teacher : Teacher) (mode : Mode) (shaped : IsShaped teacher) where
  loop_safe :
      (fuel k : ℕ) (bases : List Basis) (n : ℕ)
      → Inv n bases
      → IsFine mode (loop teacher mode fuel k bases n)
  unfolding loop
  loop_safe zero k bases n inv = (λ e. cc, λ _ e. cc)
  loop_safe (suc fuel) k bases n inv =
      elim (Option-cases (teacher.equivalence k n (copy (conjecture teacher mode bases)))) [
        | inl e ↦ rw (e, loop) (λ h. cc, λ _ h. cc)
        | inr (v, e) ↦
            let (next, r, keeps) =
              round-GoesOn teacher mode n v (shaped.counterexamples k n _ v e) bases inv in
            after (λ k bases n inv. loop_safe fuel k bases n inv) v next r e keeps
      ]
    where
      clash : {b : Bool} → b ≡ true → b ≡ false → ⊥
      clash p q = cc

      after :
          ((k : ℕ) (bases : List Basis) (n : ℕ)
            → Inv n bases
            → IsFine mode (loop teacher mode fuel k bases n))
          → (v : Bits) (next : Next) → round teacher mode v bases n ≡ done next
          → teacher.equivalence k n (copy (conjecture teacher mode bases)) ≡ some v
          → Keeps mode next
          → IsFine mode (loop teacher mode (suc fuel) k bases n)
      after ih v conflict r e keeps = rw (e, loop, r) (λ h. cc, λ on. absurd (clash on keeps))
      after ih v (continue bases' n') r e keeps = rw (e, loop, r) (ih (suc k) bases' n' keeps)

  learn_core_safe : (fuel n : ℕ) → IsFine mode (learn_core teacher mode fuel n)
  unfolding learn_core
  learn_core_safe fuel n =
      elim (Option-cases (teacher.equivalence 0 n (copy (conjecture teacher mode [])))) [
        | inl e ↦ rw (e, learn_core) (λ h. cc, λ _ h. cc)
        | inr (v, e) ↦
            let pv = shaped.counterexamples 0 n _ v e in
            let first : Inv n (add_basis [] v) =
              unfold add_basis in
              record {
                sound = (record { origin = pv; supports = tt; range = tt; paired = refl }, tt);
                full = tt;
              } in
            rw (e, learn_core, eq→== (length v) (n + 1) (omega (arith, pv.0)))
              (loop_safe fuel 1 (add_basis [] v) n first)
      ]

  -- The restarts end with a formula only.
  restart_safe :
      (tries fuel n : ℕ)
      → (restart teacher mode tries fuel n ≢ failed)
        × (restart teacher mode tries fuel n ≢ done none)
  unfolding restart
  restart_safe zero fuel n = (λ h. cc, λ h. cc)
  restart_safe (suc tries) fuel n =
      cases (restart_safe tries fuel (n + 1)) (learn_core teacher mode fuel n) refl
    where
      cases :
          (restart teacher mode tries fuel (n + 1) ≢ failed)
            × (restart teacher mode tries fuel (n + 1) ≢ done none)
          → (r : Run (Option BoolFormula)) → learn_core teacher mode fuel n ≡ r
          → (restart teacher mode (suc tries) fuel n ≢ failed)
            × (restart teacher mode (suc tries) fuel n ≢ done none)
      cases ih (done none) e = rw e ih
      cases ih (done (some f)) e = rw e (λ h. cc, λ h. cc)
      cases ih failed e = absurd ((learn_core_safe fuel n).0 e)
      cases ih out_of_fuel e = rw e (λ h. cc, λ h. cc)

  -- If every counterexample is an assignment to the variables of the query, no assertion of the
  -- learner fails, in every mode and whatever else the teacher answers.
  pub learn-ne-failed : (tries fuel n : ℕ) → learn teacher mode tries fuel n ≢ failed
  unfolding learn
  learn-ne-failed tries fuel n = elim (Bool-cases (is_plus mode)) [
    | inl e ↦ rw e (restart_safe tries fuel n).0
    | inr e ↦ rw e (learn_core_safe fuel n).0
  ]

  -- With such a teacher and in every mode but CDNF, `learn` does not return NULL.
  pub learn-ne-null :
      (tries fuel n : ℕ)
      → (is_plus mode || is_plus_plus mode || is_plus3 mode) ≡ true
      → learn teacher mode tries fuel n ≢ done none
  unfolding learn
  learn-ne-null tries fuel n on = elim (Bool-cases (is_plus mode)) [
    | inl e ↦ rw e (restart_safe tries fuel n).1
    | inr e ↦ rw e (
        (learn_core_safe fuel n).1 (others (is_plus mode) (is_plus_plus mode) (is_plus3 mode) e on))
  ]
    where
      others : (a b c : Bool) → a ≡ false → (a || b || c) ≡ true → (b || c) ≡ true
      others a b c h k = ground arith
