-- ===== src/Stubs/Learner/Behaves.antt =====
-- What is asked of the closure for equivalence, and of a session that the learner works in.
use dorder.Prelude.{ℕ, ◌+◌, ◌-◌, ◌≤◌, ◌≡◌, Option, none, some, List, ◌++◌, arith}
use dorder.Bits.{Bits}
use dorder.BoolFormula.{BoolFormula}
use dorder.BoolFormula.Store.{Ptr, Store}
use dorder.BoolFormula.Store.Count.{IsCounted, count, count-append}
use dorder.BoolFormula.Store.Reads.{view, Reads}
use dorder.Learn.Teacher.{Teacher}
use dorder.Stubs.Session.{Session, AllFilled, Reach}
use dorder.Stubs.Session.Reached.{Reach-IsBalanced}

-- The closure answers as the teacher does on the formula that its wrapper stands for; what it does are
-- steps of a session, and where every slot was written every slot is. If the lost references were as `Loss`
-- says they still are, whatever others hold besides the wrappers.
pub record Behaves (Loss : (Ptr → ℕ) → Type 0) (teacher : Teacher)
    (ask : ℕ → ℕ → Ptr → Session → Option Bits × Session) : Type 0 where
  pub answers :
      (k n : ℕ) (f : Ptr) (g : BoolFormula) (s : Session)
      → Reads (view s.store) f g
      → (ask k n f s).0 ≡ teacher.equivalence k n g
  pub steps : (k n : ℕ) (f : Ptr) (s : Session) → Reach s (ask k n f s).1
  pub filled :
      (k n : ℕ) (f : Ptr) (s : Session) → AllFilled s.store → AllFilled (ask k n f s).1.store
  pub losses :
      (k n : ℕ) (f : Ptr) (s : Session) (others : List Ptr) (lost : Ptr → ℕ)
      → Loss lost
      → IsCounted lost s.store (s.held ++ others)
      → (lost' : Ptr → ℕ) × Loss lost'
        × IsCounted lost' (ask k n f s).1.store ((ask k n f s).1.held ++ others)

-- Every closure that takes steps of a session keeps this: the lost references become no fewer.
steps-losses :
    (least lost : Ptr → ℕ) (s t : Session) (others : List Ptr)
    → Reach s t
    → ((q : Ptr) → least q ≤ lost q)
    → IsCounted lost s.store (s.held ++ others)
    → (lost' : Ptr → ℕ) × ((q : Ptr) → least q ≤ lost' q)
      × IsCounted lost' t.store (t.held ++ others)
steps-losses least lost s t others reach h acc =
    let aside : IsCounted (λ q. lost q + count q others) s.store s.held =
      (λ q. omega (arith, acc q, count-append q s.held others)) in
    let (lost₂, le, acc₂) = Reach-IsBalanced (λ q. lost q + count q others) s t aside reach in
    (
      (λ q. lost₂ q - count q others),
      (λ q. omega (arith, h q, le q)),
      (λ q. omega (arith, acc₂ q, le q, count-append q t.held others)),
    )

-- NULL for no formula, or a pointer that stands for the formula.
abbrev pub StandsFor : Option BoolFormula → Option Ptr → Store → Type 0
StandsFor none none s = Unit
StandsFor (some g) (some p) s = Reads (view s) p g
StandsFor _ _ s = ⊥

-- The counts are right with `held` for holders and lost references as `Loss` says, and every slot is written.
pub record IsSound (Loss : (Ptr → ℕ) → Type 0) (s : Store) (held : List Ptr) : Type 0 where
  pub lost : Ptr → ℕ
  pub allowed : Loss lost
  pub counted : IsCounted lost s held
  pub filled : AllFilled s
