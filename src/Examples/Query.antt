-- ===== src/Examples/Query.antt =====
-- An equivalence query on the store: the closure lets go of the formula that it got, and answers.
use dorder.Prelude.{
  ℕ, zero, suc, ◌≡◌, ◌≤◌, refl, false, [], ◌∷◌, ◌++◌, Option, some, none, pos, done,
}
use dorder.BoolFormula.Store.{
  Ptr, literal, disjunct, conjunct, freed, node, Store, free, load, for_slots, read_slot, release,
}
use dorder.BoolFormula.Store.Count.{IsCounted}
use dorder.CdnfFormula as Tree
use dorder.CdnfFormula.{Conjunction}
use dorder.Stubs.Handles.{dealloc_boolformula}
use dorder.Stubs.Session.{Session, AllFilled, finalise, Reach, here, next}
use dorder.Stubs.Query.{offer, conclude}
use dorder.Stubs.Query.Concluded.{returned, Answers, conclude-Answers}

-- The monomial x₁.
abbrev conjecture : Conjunction
conjecture = ((pos 1 ∷ []) ∷ []) ∷ []

-- Its formula at `p` and the three objects after it.
abbrev objects : Ptr → Ptr → Ptr → Store
objects p q r =
    node 1 (conjunct (some p ∷ []))
    ∷ node 1 (disjunct (some q ∷ []))
    ∷ node 1 (conjunct (some r ∷ []))
    ∷ node 1 (literal (pos 1))
    ∷ []

abbrev offered : Store
offered = objects 1 2 3 ++ objects 5 6 7

offer-conjecture : offer conjecture [] ≡ done (0, 4, offered)
unfolding offer
offer-conjecture = refl

abbrev start : Session
start = record { store = []; held = [] }

abbrev asked : Session
asked = record { store = offered; held = 4 ∷ [] }

abbrev answered : Session
answered = record { store = objects 1 2 3 ++ freed ∷ freed ∷ freed ∷ freed ∷ []; held = [] }

asked-AllFilled : AllFilled asked.store
asked-AllFilled zero = tt
asked-AllFilled (suc zero) = tt
asked-AllFilled (suc (suc zero)) = tt
asked-AllFilled (suc (suc (suc zero))) = tt
asked-AllFilled (suc (suc (suc (suc zero)))) = tt
asked-AllFilled (suc (suc (suc (suc (suc zero))))) = tt
asked-AllFilled (suc (suc (suc (suc (suc (suc zero)))))) = tt
asked-AllFilled (suc (suc (suc (suc (suc (suc (suc zero))))))) = tt
asked-AllFilled (suc (suc (suc (suc (suc (suc (suc (suc p)))))))) = tt

answered-AllFilled : AllFilled answered.store
answered-AllFilled zero = tt
answered-AllFilled (suc zero) = tt
answered-AllFilled (suc (suc zero)) = tt
answered-AllFilled (suc (suc (suc zero))) = tt
answered-AllFilled (suc (suc (suc (suc zero)))) = tt
answered-AllFilled (suc (suc (suc (suc (suc zero))))) = tt
answered-AllFilled (suc (suc (suc (suc (suc (suc zero)))))) = tt
answered-AllFilled (suc (suc (suc (suc (suc (suc (suc zero))))))) = tt
answered-AllFilled (suc (suc (suc (suc (suc (suc (suc (suc p)))))))) = tt

asked-Reach : Reach asked answered
unfolding dealloc_boolformula free load for_slots read_slot release
asked-Reach = next here (finalise 4 asked-AllFilled (λ q. refl) refl)

start-IsCounted : IsCounted (λ p. 0) [] []
start-IsCounted p = refl

conclude-Answers_example :
    (r : Option Ptr) × (store : Store) × (lost : Ptr → ℕ) × (conclude false 0 answered.store
      ≡ done (r, store))
    × Answers false 0 (Tree.to_boolformula conjecture) r store
    × ((q : Ptr) → 0 ≤ lost q)
    × IsCounted lost answered.store (0 ∷ answered.held)
    × IsCounted lost store (returned r ++ answered.held)
    × AllFilled store
conclude-Answers_example =
    conclude-Answers start conjecture 0 4 offered offer-conjecture (λ p. 0) answered false
      start-IsCounted asked-Reach answered-AllFilled

-- With the other answer nothing is left.
conclude-answered :
    conclude false 0 answered.store
    ≡ done (none, freed ∷ freed ∷ freed ∷ freed ∷ freed ∷ freed ∷ freed ∷ freed ∷ [])
unfolding conclude
conclude-answered = refl
