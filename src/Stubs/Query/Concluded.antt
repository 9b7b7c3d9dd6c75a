-- ===== src/Stubs/Query/Concluded.antt =====
-- The end of an equivalence query, whatever the closure has done.
use dorder.Prelude.{
  ℕ, suc, ◌+◌, ◌-◌, ◌≤◌, ◌≡◌, refl, sym, subst, ◌∙◌, Bool, true, false, List, [], ◌∷◌, ◌++◌, Option,
  none, some, Run, done, arith, length,
}
use dorder.BoolFormula.{BoolFormula}
use dorder.BoolFormula.Store.{Ptr, Store}
use dorder.BoolFormula.Store.Count.{IsCounted, count}
use dorder.BoolFormula.Store.Safe.{free-IsAccounted}
use dorder.BoolFormula.Store.Changes.{forget-IsCounted}
use dorder.BoolFormula.Store.Reads.{view, Reads}
use dorder.CdnfFormula as Tree
use dorder.CdnfFormula.{Conjunction}
use dorder.Stubs.Session.{Session, AllFilled, Reach}
use dorder.Stubs.Session.Private.{Reach-Keeps}
use dorder.Stubs.Query.{offer, conclude}
use dorder.Stubs.Query.Counted.{Own, Offers, offer-Offers}

-- What the caller gets.
abbrev pub returned : Option Ptr → List Ptr
returned none = []
returned (some p) = p ∷ []

-- The answer `is_equal` has the formula of the conjecture returned, the other answer NULL.
abbrev pub Answers : Bool → Ptr → BoolFormula → Option Ptr → Store → Type 0
Answers true b g r store = (r ≡ some b) × Reads (view store) b g
Answers false b g r store = r ≡ none

module _ (s : Session) (conjecture : Conjunction) (b f : Ptr) (s' : Store)
    (e : offer conjecture s.store ≡ done (b, f, s')) where
  offered : Offers s.store s' b f (Tree.to_boolformula conjecture)
  offered =
      let (s₁, f₁, r, o) = offer-Offers conjecture s.store in
      let (at_b, at_f, at_s) = same (sym r ∙ e) in
      subst (λ p. Offers s.store s' p f (Tree.to_boolformula conjecture)) at_b
        (subst (λ p. Offers s.store s' (length s.store) p (Tree.to_boolformula conjecture)) at_f
          (subst (λ u. Offers s.store u (length s.store) f₁ (Tree.to_boolformula conjecture)) at_s
            o))
    where
      same :
          {p p' q q' : Ptr} {u u' : Store}
          → ◌≡◌ {A = Run (Ptr × Ptr × Store)} (done (p, q, u)) (done (p', q', u'))
          → (p ≡ p') × (q ≡ q') × (u ≡ u')
      same z = (cc, cc, cc)

  -- After the closure the formula is what it was, and the learner holds it.
  module _ (lost : Ptr → ℕ) (t : Session) (acc : IsCounted lost s.store s.held)
      (reach : Reach (record { store = s'; held = f ∷ s.held }) t) where
    after :
        (lost' : Ptr → ℕ) × ((q : Ptr) → lost q ≤ lost' q)
        × IsCounted lost' t.store (b ∷ t.held)
        × Reads (view t.store) b (Tree.to_boolformula conjecture)
    after =
        let asked : Session = record { store = s'; held = f ∷ s.held } in
        let counted = offered.counted lost s.held acc in
        let aside =
          forget-IsCounted lost s' (f ∷ b ∷ s.held) counted b (f ∷ s.held) (λ q. omega arith) in
        let (lost', le, acc', _, k) =
          Reach-Keeps (Own b f) (λ q. lost q + count q (b ∷ [])) asked t aside
            (offered.private lost s.held acc) reach in
        (
          (λ q. lost' q - count q (b ∷ [])),
          (λ q. omega (arith, le q)),
          (λ q. omega (arith, acc' q, le q)),
          offered.kept t.store k.same,
        )

  -- Let a query be made in a session with right reference counts, let the closure use its wrapper and the
  -- others through the bindings, and let every slot be written at its end. Then the counts are right with
  -- the learner for one more holder of the conjecture, and the query ends, whatever the answer is. If it is
  -- that the formula is equal, a pointer is returned that stands for the formula of the conjecture, and else
  -- NULL. With the same lost references as before it, the counts are right with what is returned for a
  -- holder: on NULL the learner has given its reference back. No reference that was lost is given back.
  pub conclude-Answers :
      (lost : Ptr → ℕ) (t : Session) (is_equal : Bool)
      → IsCounted lost s.store s.held
      → Reach (record { store = s'; held = f ∷ s.held }) t
      → AllFilled t.store
      → (r : Option Ptr) × (store : Store) × (lost' : Ptr → ℕ) × (conclude is_equal b t.store
          ≡ done (r, store))
        × Answers is_equal b (Tree.to_boolformula conjecture) r store
        × ((q : Ptr) → lost q ≤ lost' q)
        × IsCounted lost' t.store (b ∷ t.held)
        × IsCounted lost' store (returned r ++ t.held)
        × AllFilled store
  unfolding conclude
  conclude-Answers lost t true acc reach full =
      let (lost', le, acc', reads) = after lost t acc reach in
      (some b, t.store, lost', refl, (refl, reads), le, acc', acc', full)
  conclude-Answers lost t false acc reach full =
      let (lost', le, acc', reads) = after lost t acc reach in
      let (store, r, acc'') =
        free-IsAccounted lost' t.store b t.held (suc (length t.store))
          (record { counted = acc'; filled = full }) (omega arith) in
      (none, store, lost', rw r refl, refl, le, acc', acc''.counted, acc''.filled)
