-- ===== src/BoolFormula/Store/Cnf/Parts.antt =====
-- One subformula in a clause that `add_clauses_to_boolformula` makes on a store.
use dorder.Prelude.{
  none, ℕ, ◌+◌, ◌≤◌, ◌<◌, ◌≡◌, ◌≢◌, refl, sym, ap, ◌∙◌, pos, List, [], ◌∷◌, ◌++◌, Option, done,
  ◌>>=◌, arith, length,
}
use mathlib.Core.List.{append-nil}
use dorder.BoolFormula.{Lit, BoolFormula, Formulas, nil}
use dorder.BoolFormula.Cnf as Tree
use dorder.BoolFormula.Store.{Ptr, literal, disjunct, conjunct, node, Store}
use dorder.BoolFormula.Store.Count.{at, is_live, at-lt}
use dorder.BoolFormula.Store.Free.{load-done}
use dorder.BoolFormula.Store.Reads.{
  view, content_of, below, Reads, Reads-Contains, AllRead-Contains, below-view, below-Contains,
  above-above, view-at, depth,
}
use dorder.BoolFormula.Store.Copy.Made.{lt→ne}
use dorder.BoolFormula.Store.Cnf.{place, place_part, add_clauses}
use dorder.BoolFormula.Store.Cnf.Steps.{Places, place-Places}
use dorder.BoolFormula.Store.Cnf.Made.{Adds, IsComposite, Clausifies, PartOf, PlacesPart}

module _ (s : Store) (dis : Ptr) (k : ℕ) (pre rest : List (Option Ptr)) (ret : Ptr) (ref : ℕ)
    (v : List (Option Ptr)) (lo : ℕ) (low : lo ≤ ret) (low' : lo ≤ dis) (ne : ret ≢ dis)
    (at_dis : at s dis ≡ node k (disjunct (pre ++ none ∷ rest)))
    (at_ret : at s ret ≡ node ref (conjunct v)) where
  room : ret < length s
  room = at-lt s ret (ap is_live at_ret)

  literal-PlacesPart :
      (s' : Store) (l : Lit)
      → Places s s' dis k pre rest l
      → PlacesPart s s' dis k pre rest ret ref v l nil
  unfolding Reads
  literal-PlacesPart s' l w = record {
    slot = length s;
    parent = w.parent;
    there = ap content_of w.child;
    fresh = omega arith;
    clauses = [];
    result =
        w.others ret room (λ e. ne (sym e))
        ∙ (at_ret ∙ ap (λ u. node ref (conjunct u)) (sym (append-nil v)));
    read = tt;
    old = λ q h a b. w.others q h b;
    grows = omega (arith, w.size);
    counted = w.counted;
  }

  -- After the literal of a fresh variable, the clauses of the subformula.
  composite-PlacesPart :
      (s₁ s' : Store) (l : Lit) (cs : Formulas)
      → Places s s₁ dis k pre rest l
      → Adds s₁ s' ret ref v cs
      → PlacesPart s s' dis k pre rest ret ref v l cs
  composite-PlacesPart s₁ s' l cs w a = record {
    slot = length s;
    parent = a.old dis (omega (arith, w.size, at-lt s dis (ap is_live at_dis))) ne ∙ w.parent;
    there =
        ap content_of
          (a.old (length s) (omega (arith, w.size)) (lt→ne ret (length s) room) ∙ w.child);
    fresh = omega arith;
    clauses = a.clauses;
    result = a.result;
    read =
        AllRead-Contains _ _ a.clauses cs
          (above-above (length s₁) (length s) (view s') (omega (arith, w.size))) a.read;
    old = λ q h x z. a.old q (omega (arith, w.size)) x ∙ w.others q h z;
    grows = omega (arith, a.grows, w.size);
    counted = λ lost held acc. a.counted lost held (w.counted lost held acc);
  }

  -- The formula that is read is not changed by a literal that is placed.
  still-Reads :
      (s₁ : Store) (l : Lit) (p : Ptr) (f : BoolFormula)
      → Places s s₁ dis k pre rest l
      → Reads (below lo (view s)) p f
      → Reads (below lo (view s₁)) p f
  still-Reads s₁ l p f w = Reads-Contains _ _ p f (
      below-Contains lo s s₁
        (λ q h. w.others q (omega (arith, room)) (λ e. lt→ne q dis (omega arith) (sym e))))

  module _ (fuel next : ℕ) (positive : 0 < next) (g : Ptr) where
    -- The call for a subformula that is no literal, once it is loaded.
    place_composite :
        (f : BoolFormula)
        → IsComposite f
        → Clausifies fuel f
        → Reads (below lo (view s)) g f
        → depth f ≤ fuel
        → (s' : Store) × (next' : ℕ) × (cs : Formulas) × ((place dis (length pre) (pos (next + 1)) s
              >>= λ u. add_clauses fuel ret g (next + 1) u)
            ≡ done (next', s'))
          × (Tree.add_clauses f (next + 1) ≡ done (cs, next'))
          × (next ≤ next')
          × PlacesPart s s' dis k pre rest ret ref v (pos (next + 1)) cs
    place_composite f is_composite ih r b =
        let (s₁, r₁, w) = place-Places s dis k pre rest (pos (next + 1)) at_dis in
        let (s', next', cs, r₂, t, le, a) =
          ih g ret (next + 1) ref v s₁ lo is_composite (still-Reads s₁ (pos (next + 1)) g f w r) b
            (omega arith) low (w.others ret room (λ e. ne (sym e)) ∙ at_ret) in
        (
          s',
          next',
          cs,
          rw r₁ r₂,
          t,
          omega arith,
          composite-PlacesPart s₁ s' (pos (next + 1)) cs w a,
        )

    pub place_part-PlacesPart :
        (f : BoolFormula)
        → Clausifies fuel f
        → Reads (below lo (view s)) g f
        → depth f ≤ fuel
        → (s' : Store) × (next' : ℕ) × (l : Lit) × (cs : Formulas) × (place_part
              (add_clauses fuel ret)
              dis
              (length pre)
              g
              next
              s
            ≡ done (next', s'))
          × PartOf f next l cs next'
          × (next ≤ next')
          × PlacesPart s s' dis k pre rest ret ref v l cs
    unfolding place_part Reads
    place_part-PlacesPart (BoolFormula.literal l) ih r b =
        let (_, e) = below-view lo (view s) g (literal l) r in
        let (n, at_g) = view-at s g (literal l) e in
        let (s', r₁, w) = place-Places s dis k pre rest l at_dis in
        (
          s',
          next,
          l,
          nil,
          rw (load-done s g at_g, r₁) refl,
          (refl, refl, refl),
          omega arith,
          literal-PlacesPart s' l w,
        )
    place_part-PlacesPart (BoolFormula.disjunct fs) ih (u, e, r) b =
        let (_, e') = below-view lo (view s) g (disjunct u) e in
        let (n, at_g) = view-at s g (disjunct u) e' in
        let (s', next', cs, r₁, t, le, w) =
          place_composite (BoolFormula.disjunct fs) tt ih (u, e, r) b in
        (s', next', pos (next + 1), cs, rw (load-done s g at_g) r₁, (refl, t), le, w)
    place_part-PlacesPart (BoolFormula.conjunct fs) ih (u, e, r) b =
        let (_, e') = below-view lo (view s) g (conjunct u) e in
        let (n, at_g) = view-at s g (conjunct u) e' in
        let (s', next', cs, r₁, t, le, w) =
          place_composite (BoolFormula.conjunct fs) tt ih (u, e, r) b in
        (s', next', pos (next + 1), cs, rw (load-done s g at_g) r₁, (refl, t), le, w)
