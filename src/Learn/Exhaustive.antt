-- ===== src/Learn/Exhaustive.antt =====
-- A teacher for cdnf.c that tries all assignments.
use dorder.Prelude.{
  ℕ, ◌≡◌, ◌≢◌, refl, subst, Bool, true, false, not, xor, List, [], ◌∷◌, inl, inr, arith, Bool-cases,
  Option, none, some, All, Occurs, if◌then◌else◌,
}
use dorder.Bits.{Bits, value_of}
use dorder.BoolFormula.{BoolFormula}
use dorder.BoolFormula.Meaning.{eval}
use dorder.Learn.Teacher.{Teacher}
use dorder.Learn.Honest.{Point, Honest}
use dorder.Learn.Counting.{all_points, Occurs-all_points, all_points-Point}

-- The first assignment at which a formula and the function differ.
unfoldable pub first_difference : (Bits → Bool) → BoolFormula → List Bits → Option Bits
unfolding eval
first_difference target b [] = none
first_difference target b (x ∷ xs) =
    let rest = first_difference target b xs in
    if xor (eval (value_of x) b) (target x) then some x else rest

abbrev pub exhaustive : (Bits → Bool) → Teacher
exhaustive target = record {
  membership = target;
  comembership = λ v. not (target v);
  equivalence = λ k n b. first_difference target b (all_points n);
}

xor-true : (a b : Bool) → xor a b ≡ true → a ≢ b
xor-true a b h e = ground arith

xor-false : (a b : Bool) → xor a b ≡ false → a ≡ b
xor-false a b h = ground arith

module _ (target : Bits → Bool) (b : BoolFormula) where
  difference_none :
      (xs : List Bits) (x : Bits)
      → first_difference target b xs ≡ none
      → Occurs x xs
      → eval (value_of x) b ≡ target x
  unfolding first_difference
  difference_none [] x h o = absurd o
  difference_none (y ∷ xs) x h o = elim (Bool-cases (xor (eval (value_of y) b) (target y))) [
    | inl d ↦ absurd (some_none (rw d at h))
    | inr same ↦ elim o [
      | inl e ↦ rw e (xor-false _ _ same)
      | inr o' ↦ difference_none xs x (rw same at h) o'
    ]
  ]
    where
      some_none : some y ≡ none → ⊥
      some_none p = cc

  difference_some :
      (n : ℕ) (xs : List Bits) (v : Bits)
      → All (Point n) xs
      → first_difference target b xs ≡ some v
      → Point n v × (eval (value_of v) b ≢ target v)
  unfolding first_difference
  difference_some n [] v p h = cc
  difference_some n (y ∷ xs) v p h = elim (Bool-cases (xor (eval (value_of y) b) (target y))) [
    | inl d ↦
        subst (λ w. Point n w × (eval (value_of w) b ≢ target w)) (same (rw d at h))
          (p.0, xor-true _ _ d)
    | inr equal ↦ difference_some n xs v p.1 (rw equal at h)
  ]
    where
      same : some y ≡ some v → y ≡ v
      same e = cc

pub exhaustive-Honest : (target : Bits → Bool) → Honest (exhaustive target) target
exhaustive-Honest target = record {
  members = λ v. refl;
  accepted = λ k n b h x p. difference_none target b (all_points n) x h (Occurs-all_points n x p);
  refuted = λ k n b v h. difference_some target b n (all_points n) v (all_points-Point n) h;
}
