-- ===== src/Examples/Learner.antt =====
-- The learner on the store with a closure that gives one counterexample and accepts the next conjecture.
use dorder.Prelude.{ℕ, zero, suc, ◌≡◌, refl, false, [], ◌∷◌, ◌++◌, Option, some, none, done}
use dorder.Bits.{Bits}
use dorder.BoolFormula.{BoolFormula, conjunct, disjunct, nil, cons}
use dorder.BoolFormula.Store.{Ptr}
use dorder.Learn.Teacher.{Teacher, plain}
use dorder.Learn.Bases.{get_conjecture, add_basis}
use dorder.CdnfFormula.{to_boolformula}
use dorder.Learn.Core as Tree
use dorder.Stubs.Session.{Session, here}
use dorder.Stubs.Query.Concluded.{returned}
use dorder.Stubs.Learner.{learn}
use dorder.Stubs.Learner.Behaves.{Behaves, StandsFor, IsSound}
use dorder.Stubs.Learner.Refines.{learn-StandsFor}

abbrev answer : ℕ → Option Bits
answer zero = some (false ∷ false ∷ [])
answer (suc k) = none

-- The function that is false everywhere.
abbrev never : Teacher
never = record {
  membership = λ v. false;
  comembership = λ v. false;
  equivalence = λ k n g. answer k;
}

abbrev ask : ℕ → ℕ → Ptr → Session → Option Bits × Session
ask k n f s = (answer k, s)

-- No reference is lost.
abbrev NoLoss : (Ptr → ℕ) → Type 0
NoLoss lost = (q : Ptr) → lost q ≡ 0

ask-Behaves : Behaves NoLoss never ask
ask-Behaves = record {
  answers = λ k n f g s r. refl;
  steps = λ k n f s. here;
  filled = λ k n f s h. h;
  losses = λ k n f s others lost h c. (lost, h, c);
}

abbrev start : Session
start = record { store = []; held = [] }

start-IsSound : IsSound NoLoss [] []
start-IsSound = record { lost = λ p. 0; allowed = λ p. refl; counted = λ p. refl; filled = λ p. tt }

-- An empty disjunction.
abbrev learned : BoolFormula
learned = conjunct (cons (disjunct nil) nil)

learn-never : Tree.learn never plain 1 5 1 ≡ done (some learned)
unfolding Tree.learn Tree.loop Tree.conjecture to_boolformula get_conjecture add_basis
learn-never = refl

learn-StandsFor_example :
    (r : Option Ptr) × (t : Session) × (learn never plain ask 1 5 1 start ≡ done (r, t))
    × StandsFor (some learned) r t.store
    × IsSound NoLoss t.store (returned r ++ t.held)
learn-StandsFor_example =
    learn-StandsFor NoLoss never plain ask ask-Behaves 1 5 1 start (some learned) start-IsSound
      learn-never
