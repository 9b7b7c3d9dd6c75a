-- ===== src/Stubs/Called/Agrees.antt =====
-- The learner with callbacks of which no assertion fails is that of Learn.
use dorder.Prelude.{
  ℕ, zero, suc, ◌+◌, ◌-◌, ◌≡◌, refl, ap, Bool, true, false, not, xor, List, [], ◌∷◌, done, assert,
  checked, ◌==◌, length, get_elem?, set, if◌then◌else◌, Bool-cases, inl, inr,
}
use dorder.Bits.{Bits, extend, put, get}
use dorder.BoolFormula.{BoolFormula, copy}
use dorder.CdnfFormula.{to_boolformula, last_index}
use dorder.Learn.Teacher.{Teacher, Mode, is_plus_plus, is_plus3}
use dorder.Learn.Bases.{Basis, add_basis, get_conjecture, get_indices_to_modify}
use dorder.Learn.Walk as Walk
use dorder.Learn.Refine as Refine
use dorder.Learn.Refine.{is_empty}
use dorder.Learn.Core as Core
use dorder.Learn.Core.{Next, Fix, add_support}
use dorder.Learn.Unasked.{bind_eq, fix_eq, indices_eq, answer_eq, next_eq, result_eq}
use dorder.Stubs.Called.{
  Callbacks, walk_step, walk_loop, walk, fix_basis, extend_point, extend_points, extension,
  strip_bases, refine_bases, refine, on_clash, fix_bases, on_all_true, round, loop, learn_core,
  restart, learn,
}

-- The callbacks that a mode calls answer as the teacher does.
pub record Answers (teacher : Teacher) (mode : Mode) (cb : Callbacks) : Type 0 where
  pub member : (v : Bits) → cb.membership v ≡ done (teacher.membership v)
  pub comember :
      is_plus_plus mode ≡ true → (v : Bits) → cb.comembership v ≡ done (teacher.comembership v)
  pub equivalent :
      (k n : ℕ) (f : BoolFormula) → cb.equivalence k n f ≡ done (teacher.equivalence k n f)

module _ (teacher : Teacher) (mode : Mode) (cb : Callbacks) (h : Answers teacher mode cb) where
  walk_step-eq :
      (a : Bits) (i : ℕ) (v : Bits)
      → walk_step cb mode a i v ≡ Walk.walk_step teacher.membership a i v
  unfolding walk_step Walk.walk_step
  walk_step-eq a i v = bind_eq (get v i) _ _ (λ b. bind_eq (get a i) _ _ (λ c.
      ap (λ flip. if xor b c then flip else done (v, i - 1))
        (bind_eq (put v i (not b)) _ _ (λ w. rw (h.member w) refl))))

  walk_loop-eq :
      (a : Bits) (fuel i : ℕ) (v : Bits)
      → walk_loop cb mode a fuel i v ≡ Walk.walk_loop teacher.membership a fuel i v
  unfolding walk_loop Walk.walk_loop
  walk_loop-eq a zero i v = refl
  walk_loop-eq a (suc fuel) zero v = refl
  walk_loop-eq a (suc fuel) (suc i) v = rw (walk_step-eq a (suc i) v) (
      bind_eq (Walk.walk_step teacher.membership a (suc i) v) _ _
        (λ x. walk_loop-eq a fuel x.1 x.0))

  walk-eq : (a v : Bits) → walk cb mode a v ≡ Walk.walk teacher.membership a v
  unfolding walk Walk.walk
  walk-eq a v =
      bind_eq (assert (length v == length a)) _ _
        (λ u. bind_eq (last_index a) _ _ (λ i. walk_loop-eq a _ i v))

  fix_basis-eq : (b : Basis) (v : Bits) → fix_basis cb mode b v ≡ Core.fix_basis teacher mode b v
  unfolding fix_basis Core.fix_basis
  fix_basis-eq b v = rw (walk-eq b.a v) refl

  extend_points-eq :
      (l : ℕ) (b : Bool) (vs : List Bits)
      → extend_points cb mode l b vs ≡ Refine.extend_points teacher l b vs
  unfolding extend_points Refine.extend_points extend_point Refine.extend_point
  extend_points-eq l b [] = refl
  extend_points-eq l b (v ∷ vs) =
      let point : extend_point cb mode l b v ≡ Refine.extend_point teacher l b v =
        bind_eq (assert (length v == l)) _ _
          (λ u. bind_eq (put (extend v false) l b) _ _ (λ w. rw (h.member w) refl)) in
      rw (point, extend_points-eq l b vs) refl

  extension-eq : (a : Bits) → extension cb mode a ≡ done (Refine.extension teacher mode a)
  unfolding extension
  extension-eq a = elim (Bool-cases (is_plus_plus mode)) [
    | inl e ↦ rw e (rw (h.comember e a) refl)
    | inr e ↦ rw e refl
  ]

  strip_bases-eq :
      (bases : List Basis) → strip_bases cb mode bases ≡ Refine.strip_bases teacher mode bases
  unfolding strip_bases Refine.strip_bases
  strip_bases-eq [] = refl
  strip_bases-eq (b ∷ bases) = rw (strip_bases-eq bases) (
      bind_eq (put (extend b.a false) (length b.a) false) _ _ (λ a.
        rw (extension-eq a)
          (rw (extend_points-eq (length b.a) (Refine.extension teacher mode a) b.t) refl)))

  refine-eq :
      (bases : List Basis) (n : ℕ) → refine cb mode bases n ≡ Core.refine teacher mode bases n
  unfolding refine refine_bases Core.refine Refine.refine_bases
  refine-eq bases n = rw (strip_bases-eq bases) refl

  on_clash-eq :
      (bases : List Basis) (n : ℕ) → on_clash cb mode bases n ≡ Core.on_clash teacher mode bases n
  unfolding on_clash Core.on_clash
  on_clash-eq bases n = rw (refine-eq bases n) refl

  fix_bases-eq :
      (is : List ℕ) (v : Bits) (bases : List Basis) (n : ℕ)
      → fix_bases cb mode is v bases n ≡ Core.fix_bases teacher mode is v bases n
  unfolding fix_bases Core.fix_bases
  fix_bases-eq [] v bases n = refl
  fix_bases-eq (i ∷ is) v bases n = bind_eq (checked (get_elem? bases i)) _ _ (λ b.
      rw (fix_basis-eq b v) (
        bind_eq (Core.fix_basis teacher mode b v) _ _ (λ r.
          fix_eq r (on_clash-eq bases n)
            (λ v' m. fix_bases-eq is v (set bases i (add_support b v' m)) n))))

  on_all_true-eq :
      (v : Bits) (bases : List Basis) (n : ℕ)
      → on_all_true cb mode v bases n ≡ Core.on_all_true teacher mode v bases n
  unfolding on_all_true Core.on_all_true
  on_all_true-eq v bases n = elim (Bool-cases (is_plus3 mode)) [
    | inl e ↦ rw (e, h.member v) (rw (refine-eq bases n) refl)
    | inr e ↦ rw e refl
  ]

  round-eq :
      (v : Bits) (bases : List Basis) (n : ℕ)
      → round cb mode v bases n ≡ Core.round teacher mode v bases n
  unfolding round Core.round
  round-eq v bases n = bind_eq (assert (length v == (n + 1))) _ _ (λ u.
      bind_eq (get_indices_to_modify bases v) _ _
        (λ is. indices_eq is (on_all_true-eq v bases n) (λ js. fix_bases-eq js v bases n)))

  loop-eq :
      (fuel k : ℕ) (bases : List Basis) (n : ℕ)
      → loop cb mode fuel k bases n ≡ Core.loop teacher mode fuel k bases n
  unfolding loop Core.loop Core.conjecture
  loop-eq zero k bases n = refl
  loop-eq (suc fuel) k bases n =
      rw (h.equivalent k n (copy (to_boolformula (get_conjecture bases)))) (
        answer_eq (teacher.equivalence k n (copy (to_boolformula (get_conjecture bases)))) _ (λ v.
          rw (round-eq v bases n) (
            bind_eq (Core.round teacher mode v bases n) _ _
              (λ r. next_eq r _ (loop-eq fuel (suc k))))))

  learn_core-eq : (fuel n : ℕ) → learn_core cb mode fuel n ≡ Core.learn_core teacher mode fuel n
  unfolding learn_core Core.learn_core Core.conjecture
  learn_core-eq fuel n = rw (h.equivalent 0 n (copy (to_boolformula (get_conjecture [])))) (
      answer_eq (teacher.equivalence 0 n (copy (to_boolformula (get_conjecture [])))) _
        (λ v. rw (loop-eq fuel 1 (add_basis [] v) n) refl))

  restart-eq :
      (tries fuel n : ℕ) → restart cb mode tries fuel n ≡ Core.restart teacher mode tries fuel n
  unfolding restart Core.restart
  restart-eq zero fuel n = refl
  restart-eq (suc tries) fuel n = rw (learn_core-eq fuel n) (
      bind_eq (Core.learn_core teacher mode fuel n) _ _
        (λ r. result_eq r (restart-eq tries fuel (n + 1))))

  -- If the callbacks for membership and equivalence, and in the mode CDNF_PlusPlus that for comembership,
  -- answer as a teacher does and fail no assertion, `learn` ends as it does with this teacher.
  pub learn-eq :
      (tries fuel n : ℕ) → learn cb mode tries fuel n ≡ Core.learn teacher mode tries fuel n
  unfolding learn Core.learn
  learn-eq tries fuel n = rw (restart-eq tries fuel n, learn_core-eq fuel n) refl
