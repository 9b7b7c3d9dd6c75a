-- ===== src/Learn/Total.antt =====
-- `learn_core` and `learn` of cdnf.c against an honest teacher, as a whole.
use dorder.Prelude.{
  ℕ, zero, suc, ◌+◌, ◌*◌, ◌^◌, ◌≤◌, ◌<◌, ◌≡◌, ◌≢◌, refl, ap, sym, ◌∙◌, Bool, true, false, List, [],
  inl, inr, arith, Option-cases, length, Option, none, some, Run, done, All, if◌then◌else◌, eq→==,
}
use dorder.Bits.{Bits, value_of}
use dorder.BoolFormula.{BoolFormula, copy}
use dorder.BoolFormula.Meaning.{eval, copy_lem}
use dorder.Learn.Teacher.{Teacher, Mode, is_plus}
use dorder.Learn.Bases.{Basis, add_basis, get_conjecture}
use dorder.Learn.Core.{conjecture, loop, learn_core, restart, learn}
use dorder.Learn.Honest.{Point, Honest, IsGood}
use dorder.Learn.Counting.{length-all_points}
use dorder.Learn.Measure.{potential, potential-first}
use dorder.Learn.Rounds.{round-GoesOn, conjecture-eq, IsGood-first}

-- The run returns a formula that is the target at every point.
abbrev pub Learns : ℕ → (Bits → Bool) → Run (Option BoolFormula) → Type 0
Learns n target r =
    (f : BoolFormula) × (r ≡ done (some f))
    × ((x : Bits) → Point n x → eval (value_of x) f ≡ target x)

module _ (teacher : Teacher) (target : Bits → Bool) (honest : Honest teacher target) (mode : Mode)
    (n : ℕ) where
  accepted-Learns :
      (k : ℕ) (bases : List Basis)
      → teacher.equivalence k n (copy (conjecture teacher mode bases)) ≡ none
      → (x : Bits) → Point n x
      → eval (value_of x) (conjecture teacher mode bases) ≡ target x
  accepted-Learns k bases e x p =
      ap (eval (value_of x)) (sym (copy_lem (conjecture teacher mode bases)))
      ∙ honest.accepted k n (copy (conjecture teacher mode bases)) e x p

  loop-Learns :
      (fuel k : ℕ) (bases : List Basis)
      → All (IsGood n target) bases
      → potential n bases < fuel
      → Learns n target (loop teacher mode fuel k bases n)
  unfolding loop
  loop-Learns zero k bases good enough = absurd (omega arith)
  loop-Learns (suc fuel) k bases good enough =
      elim (Option-cases (teacher.equivalence k n (copy (conjecture teacher mode bases)))) [
        | inl e ↦ (conjecture teacher mode bases, rw (e, loop) refl, accepted-Learns k bases e)
        | inr (v, e) ↦
            let (pv, differs) = honest.refuted k n (copy (conjecture teacher mode bases)) v e in
            let (bases', r, good', falls) =
              round-GoesOn teacher target honest mode n v pv bases good differs in
            let (f, q, h) = loop-Learns fuel (suc k) bases' good' (omega arith) in
            (f, rw (e, loop, r) q, h)
      ]

  learn_core-Learns :
      (fuel : ℕ)
      → suc (2 ^ n) * suc (2 ^ n) ≤ fuel
      → Learns n target (learn_core teacher mode fuel n)
  unfolding learn_core get_conjecture
  learn_core-Learns fuel enough =
      elim (Option-cases (teacher.equivalence 0 n (copy (conjecture teacher mode [])))) [
        | inl e ↦ (conjecture teacher mode [], rw (e, learn_core) refl, accepted-Learns 0 [] e)
        | inr (v, e) ↦
            let (pv, differs) = honest.refuted 0 n (copy (conjecture teacher mode [])) v e in
            let negative : target v ≡ false =
              not_true _ (rw (conjecture-eq teacher target honest mode n [] v) at differs) in
            let (f, q, h) =
              loop-Learns fuel 1 (add_basis [] v)
                (unfold add_basis in (IsGood-first teacher target honest mode n v pv negative, tt))
                (omega (
                  arith,
                  potential-first n v,
                  rw (length-all_points n) at (potential-first n v),
                )) in
            (f, rw (e, learn_core, eq→== (length v) (n + 1) (omega (arith, pv.0))) q, h)
      ]
    where
      not_true : (b : Bool) → true ≢ b → b ≡ false
      not_true true h = absurd (h refl)
      not_true false h = refl

  -- Against a teacher that answers truthfully about a Boolean function of `n` variables, in every
  -- mode, `learn` returns a formula: no assertion fails, no conflict is found, and (2^n + 1)^2
  -- rounds are enough. The formula has the function's value at every assignment.
  pub learn-Learns :
      (tries fuel : ℕ)
      → suc (2 ^ n) * suc (2 ^ n) ≤ fuel
      → Learns n target (learn teacher mode (suc tries) fuel n)
  unfolding learn restart
  learn-Learns tries fuel enough =
      let (f, e, h) = learn_core-Learns fuel enough in
      (
        f,
        (elim (is_plus mode)
            as (λ b.
              (if b
                then restart teacher mode (suc tries) fuel n
                else learn_core teacher mode fuel n)
              ≡ done (some f)) [ true ↦ rw e refl | false ↦ e ]),
        h,
      )
