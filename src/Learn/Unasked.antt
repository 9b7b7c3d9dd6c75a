-- ===== src/Learn/Unasked.antt =====
-- The comembership callback of `learn` in cdnf.c, which only `refine_bases` calls.
use dorder.Prelude.{
  ℕ, zero, suc, ◌+◌, ◌≡◌, refl, Bool, false, Option, none, some, List, [], ◌∷◌, Run, done, failed,
  out_of_fuel, ◌>>=◌, assert, checked, ◌==◌, length, get_elem?, set,
}
use dorder.Bits.{Bits, extend, put}
use dorder.BoolFormula.{BoolFormula, copy}
use dorder.CdnfFormula.{Monomial}
use dorder.Learn.Teacher.{Teacher, Mode, is_plus_plus}
use dorder.Learn.Bases.{Basis, add_basis, get_indices_to_modify}
use dorder.Learn.Refine.{extend_points, extend_point, strip_bases, refine_bases, extension}
use dorder.Learn.Core.{
  Next, continue, conflict, Fix, clash, supported, add_support, conjecture, fix_basis, refine,
  on_clash, fix_bases, on_all_true, round, loop, learn_core, restart, learn,
}

pub bind_eq :
    {A B : Type 0} (r : Run A) (f g : A → Run B) → ((x : A) → f x ≡ g x) → (r >>= f) ≡ (r >>= g)
bind_eq (done x) f g h = h x
bind_eq failed f g h = refl
bind_eq out_of_fuel f g h = refl

pub fix_eq :
    (r : Fix) {x y : Run Next} {f g : Bits → Monomial → Run Next}
    → x ≡ y
    → ((v : Bits) (m : Monomial) → f v m ≡ g v m)
    → elim r [ clash ↦ x | supported v m ↦ f v m ] ≡ elim r [ clash ↦ y | supported v m ↦ g v m ]
fix_eq clash h k = h
fix_eq (supported v m) h k = k v m

pub indices_eq :
    (is : List ℕ) {x y : Run Next} {f g : List ℕ → Run Next}
    → x ≡ y
    → ((js : List ℕ) → f js ≡ g js)
    → elim is [ [] ↦ x | i ∷ rest ↦ f (i ∷ rest) ] ≡ elim is [ [] ↦ y | i ∷ rest ↦ g (i ∷ rest) ]
indices_eq [] h k = h
indices_eq (i ∷ is) h k = k (i ∷ is)

pub answer_eq :
    (r : Option Bits) (x : Run (Option BoolFormula)) {f g : Bits → Run (Option BoolFormula)}
    → ((v : Bits) → f v ≡ g v)
    → elim r [ none ↦ x | some v ↦ f v ] ≡ elim r [ none ↦ x | some v ↦ g v ]
answer_eq none x h = refl
answer_eq (some v) x h = h v

pub next_eq :
    (r : Next) (x : Run (Option BoolFormula)) {f g : List Basis → ℕ → Run (Option BoolFormula)}
    → ((bases : List Basis) (n : ℕ) → f bases n ≡ g bases n)
    → elim r [ conflict ↦ x | continue bases n ↦ f bases n ]
      ≡ elim r [ conflict ↦ x | continue bases n ↦ g bases n ]
next_eq (continue bases n) x h = h bases n
next_eq conflict x h = refl

pub result_eq :
    (r : Option BoolFormula) {x y : Run (Option BoolFormula)}
    → x ≡ y
    → elim r [ some f ↦ done (some f) | none ↦ x ] ≡ elim r [ some f ↦ done (some f) | none ↦ y ]
result_eq none h = h
result_eq (some f) h = refl

-- The teacher with another comembership callback.
abbrev pub with_comembership : Teacher → (Bits → Bool) → Teacher
with_comembership teacher other = record {
  membership = teacher.membership;
  comembership = other;
  equivalence = teacher.equivalence;
}

module _ (teacher : Teacher) (other : Bits → Bool) where
  abbrev t' : Teacher
  t' = with_comembership teacher other

  extend_points-eq :
      (l : ℕ) (b : Bool) (vs : List Bits) → extend_points t' l b vs ≡ extend_points teacher l b vs
  unfolding extend_points extend_point
  extend_points-eq l b [] = refl
  extend_points-eq l b (v ∷ vs) = rw (extend_points-eq l b vs) refl

  module _ (mode : Mode) (h : is_plus_plus mode ≡ false) where
    extension-eq : (a : Bits) → extension t' mode a ≡ extension teacher mode a
    extension-eq a = rw h refl

    strip_bases-eq :
        (bases : List Basis) → strip_bases t' mode bases ≡ strip_bases teacher mode bases
    unfolding strip_bases
    strip_bases-eq [] = refl
    strip_bases-eq (b ∷ bases) = rw (strip_bases-eq bases) (
        bind_eq (put (extend b.a false) (length b.a) false) _ _
          (λ a. rw (h, extend_points-eq (length b.a) false b.t) refl))

    refine-eq : (bases : List Basis) (n : ℕ) → refine t' mode bases n ≡ refine teacher mode bases n
    unfolding refine refine_bases
    refine-eq bases n = rw (strip_bases-eq bases) refl

    on_clash-eq :
        (bases : List Basis) (n : ℕ) → on_clash t' mode bases n ≡ on_clash teacher mode bases n
    unfolding on_clash
    on_clash-eq bases n = rw (refine-eq bases n) refl

    fix_bases-eq :
        (is : List ℕ) (v : Bits) (bases : List Basis) (n : ℕ)
        → fix_bases t' mode is v bases n ≡ fix_bases teacher mode is v bases n
    unfolding fix_bases fix_basis
    fix_bases-eq [] v bases n = refl
    fix_bases-eq (i ∷ is) v bases n = bind_eq (checked (get_elem? bases i)) _ _ (λ b.
        bind_eq (fix_basis teacher mode b v) _ _ (λ r.
          fix_eq r (on_clash-eq bases n)
            (λ v' m. fix_bases-eq is v (set bases i (add_support b v' m)) n)))

    round-eq :
        (v : Bits) (bases : List Basis) (n : ℕ)
        → round t' mode v bases n ≡ round teacher mode v bases n
    unfolding round on_all_true
    round-eq v bases n = bind_eq (assert (length v == (n + 1))) _ _ (λ u.
        bind_eq (get_indices_to_modify bases v) _ _
          (λ is. indices_eq is (rw (refine-eq bases n) refl) (λ js. fix_bases-eq js v bases n)))

    loop-eq :
        (fuel k : ℕ) (bases : List Basis) (n : ℕ)
        → loop t' mode fuel k bases n ≡ loop teacher mode fuel k bases n
    unfolding loop conjecture
    loop-eq zero k bases n = refl
    loop-eq (suc fuel) k bases n =
        answer_eq (teacher.equivalence k n (copy (conjecture teacher mode bases))) _ (λ v.
          rw (round-eq v bases n)
            (bind_eq (round teacher mode v bases n) _ _ (λ r. next_eq r _ (loop-eq fuel (suc k)))))

    learn_core-eq : (fuel n : ℕ) → learn_core t' mode fuel n ≡ learn_core teacher mode fuel n
    unfolding learn_core conjecture
    learn_core-eq fuel n =
        answer_eq (teacher.equivalence 0 n (copy (conjecture teacher mode []))) _
          (λ v. rw (loop-eq fuel 1 (add_basis [] v) n) refl)

    restart-eq :
        (tries fuel n : ℕ) → restart t' mode tries fuel n ≡ restart teacher mode tries fuel n
    unfolding restart
    restart-eq zero fuel n = refl
    restart-eq (suc tries) fuel n = rw (learn_core-eq fuel n) (
        bind_eq (learn_core teacher mode fuel n) _ _
          (λ r. result_eq r (restart-eq tries fuel (n + 1))))

    -- In every mode but CDNF_PlusPlus the answers to comembership queries do not matter: with any
    -- other comembership callback `learn` ends in the same way and returns the same formula.
    pub learn-with_comembership :
        (tries fuel n : ℕ)
        → learn (with_comembership teacher other) mode tries fuel n
          ≡ learn teacher mode tries fuel n
    unfolding learn
    learn-with_comembership tries fuel n = rw (restart-eq tries fuel n, learn_core-eq fuel n) refl
