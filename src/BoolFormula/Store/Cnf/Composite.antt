-- ===== src/BoolFormula/Store/Cnf/Composite.antt =====
-- `add_clauses_to_boolformula` on a store, next to the function on trees.
use dorder.Prelude.{
  ℕ, zero, suc, ◌≤◌, ◌<◌, ◌≡◌, refl, sym, ap, ◌∙◌, pos, negate, List, [], ◌∷◌, ◌++◌, Option, some,
  done, arith, length,
}
use dorder.BoolFormula.{BoolFormula, Formulas, nil, cons}
use dorder.BoolFormula.Cnf as Tree
use dorder.BoolFormula.Store.{Ptr, literal, disjunct, conjunct, node, Store}
use dorder.BoolFormula.Store.Count.{at, is_live, at-lt}
use dorder.BoolFormula.Store.Free.{load-done}
use dorder.BoolFormula.Store.Changes.{at-append_lt, at-append_self}
use dorder.BoolFormula.Store.Reads.{
  view, below, Reads, AllRead, AllRead-Contains, below-view, below-Contains, view-at, depth, depths,
}
use dorder.BoolFormula.Store.Copy.Made.{lt→ne}
use dorder.BoolFormula.Store.Cnf.{add_clauses, conjunct_clauses}
use dorder.BoolFormula.Store.Cnf.Steps.{free-Drops, length_new}
use dorder.BoolFormula.Store.Cnf.Made.{Adds, Clausifies, AllClausify}
use dorder.BoolFormula.Store.Cnf.Clause.{opens, clause-Clauses}
use dorder.BoolFormula.Store.Cnf.Sign.{signed, complement-done, nil-Adds, Clauses-Adds}
use dorder.BoolFormula.Store.Cnf.Disjunct as Disjunct
use dorder.BoolFormula.Store.Cnf.Conjunct as Conjunct

module _ (fuel : ℕ) (p ret : Ptr) (next ref : ℕ) (v : List (Option Ptr)) (s : Store) (lo : ℕ)
    (positive : 0 < next) (low : lo ≤ ret) (at_ret : at s ret ≡ node ref (conjunct v)) where
  room : ret < length s
  room = at-lt s ret (ap is_live at_ret)

  s₀ : Store
  s₀ = signed s (negate (pos next))

  old₀ : (q : Ptr) → q < length s → at s₀ q ≡ at s q
  unfolding s₀
  old₀ q h = at-append_lt s _ q h

  neg₀ : at s₀ (length s) ≡ node 1 (literal (negate (pos next)))
  unfolding s₀
  neg₀ = at-append_self s _

  read₀ :
      (w : List (Option Ptr)) (fs : Formulas)
      → AllRead (below lo (view s)) w fs
      → AllRead (below lo (view s₀)) w fs
  read₀ w fs =
      AllRead-Contains _ _ w fs (below-Contains lo s s₀ (λ q h. old₀ q (omega (arith, room))))

  conjunction :
      (fs : Formulas) (w : List (Option Ptr))
      → AllClausify fuel fs
      → below lo (view s) p ≡ some (conjunct w)
      → AllRead (below lo (view s)) w fs
      → depths fs ≤ fuel
      → (s' : Store) × (next' : ℕ) × (cs : Formulas) × (add_clauses (suc fuel) ret p next s
          ≡ done (next', s'))
        × (Tree.add_clauses (BoolFormula.conjunct fs) next ≡ done (cs, next'))
        × (next ≤ next')
        × Adds s s' ret ref v cs
  unfolding add_clauses Tree.add_clauses Reads conjunct_clauses s₀
  conjunction nil [] ns e rs fits =
      let (inside, e') = below-view lo (view s) p (conjunct []) e in
      let (fr, at_p) = view-at s p (conjunct []) e' in
      let (s', r, a) = nil-Adds s (negate (pos next)) ret ref v room at_ret in
      (
        s',
        next,
        nil,
        rw (complement-done next positive, load-done s₀ p (old₀ p (omega (arith, room)) ∙ at_p))
            (rw r refl),
        refl,
        omega arith,
        a,
      )
  conjunction nil (x ∷ w) ns e rs fits = absurd rs
  conjunction (cons f fs) [] ns e rs fits = absurd rs
  conjunction (cons f fs) (x ∷ w) ns e rs fits =
      let (inside, e') = below-view lo (view s) p (conjunct (x ∷ w)) e in
      let (fr, at_p) = view-at s p (conjunct (x ∷ w)) e' in
      let at₀ = old₀ p (omega (arith, room)) ∙ at_p in
      let (s', next', cs, r, t, le, c) =
        Conjunct.conjunct_clauses-Clauses fuel p (length s) ret lo (length s) ref fr next (x ∷ w)
          inside low room (omega arith) (cons f fs) (x ∷ w) [] 0 next 1 v s₀ ns
          (record {
            source = at₀;
            split = refl;
            index = refl;
            result = old₀ ret room ∙ at_ret;
            sign = neg₀;
            read = read₀ (x ∷ w) (cons f fs) rs;
            positive = positive;
          })
          fits in
      let (s'', r', a) = Clauses-Adds s (negate (pos next)) ret ref v room s' (length w) cs c in
      (
        s'',
        next',
        cs,
        rw (complement-done next positive, load-done s₀ p at₀) (rw (r, r') refl),
        t,
        le,
        a,
      )

  disjunction :
      (fs : Formulas) (w : List (Option Ptr))
      → AllClausify fuel fs
      → below lo (view s) p ≡ some (disjunct w)
      → AllRead (below lo (view s)) w fs
      → depths fs ≤ fuel
      → (s' : Store) × (next' : ℕ) × (cs : Formulas) × (add_clauses (suc fuel) ret p next s
          ≡ done (next', s'))
        × (Tree.add_clauses (BoolFormula.disjunct fs) next ≡ done (cs, next'))
        × (next ≤ next')
        × Adds s s' ret ref v cs
  unfolding add_clauses Tree.add_clauses s₀
  disjunction fs w ns e rs fits =
      let (inside, e') = below-view lo (view s) p (disjunct w) e in
      let (fr, at_p) = view-at s p (disjunct w) e' in
      let at₀ = old₀ p (omega (arith, room)) ∙ at_p in
      let cl = negate (pos next) in
      let dis = length s₀ in
      let size = length_new s (literal cl) in
      let (s₂, s₃, r₂, r₃, o) =
        opens (length s) (length s) cl ret ref room (omega arith) s₀ 1 (length w) v
          (old₀ ret room ∙ at_ret) neg₀ in
      let low_old : (q : Ptr) → q < lo → at s₃ q ≡ at s₀ q = λ q h.
        o.others q (omega (arith, room, size)) (λ e. lt→ne q ret (omega arith) (sym e))
          (λ e. lt→ne q (length s) (omega (arith, room)) (sym e)) in
      let (s₄, next', lits, cs, r₄, t, le, lit) =
        Disjunct.disjunct_literals-Literals fuel p dis ret lo ref 2 fr w inside low
          (omega (arith, room, size)) (lt→ne ret dis (omega (arith, room, size))) fs w []
          (some (length s) ∷ []) 0 next (v ++ some dis ∷ []) s₃ ns
          (record {
            source = low_old p inside ∙ at₀;
            split = refl;
            index = refl;
            index' = refl;
            target = o.target;
            result = o.result;
            read = AllRead-Contains _ _ w fs (below-Contains lo s₀ s₃ low_old) (read₀ w fs rs);
            positive = positive;
          })
          fits in
      let (s₅, r₅, d) =
        free-Drops (length s₄) s₄ dis 0 (disjunct (some (length s) ∷ lit.written)) lit.parent in
      let c =
        clause-Clauses (length s) (length s) cl ret ref room (omega arith) s₀ s₃ s₄ s₅ 1 (length w)
          v lits cs (omega (arith, room, size)) (omega (arith, size)) o lit d in
      let (s₆, r₆, a) = Clauses-Adds s cl ret ref v room s₅ 0 _ c in
      (
        s₆,
        next',
        cons (BoolFormula.disjunct (cons (BoolFormula.literal cl) lits)) cs,
        rw (complement-done next positive, load-done s₀ p at₀) (rw (r₂, r₃) (rw (r₄, r₅, r₆) refl)),
        rw t refl,
        le,
        a,
      )

mutual
  unfolding Reads depth

  clausifies : (fuel : ℕ) (f : BoolFormula) → Clausifies fuel f
  clausifies fuel (BoolFormula.literal l) p ret next ref v s lo is_composite r fits positive low
        at_ret =
      absurd is_composite
  clausifies zero (BoolFormula.disjunct fs) p ret next ref v s lo is_composite r fits positive low
        at_ret =
      absurd (omega arith)
  clausifies zero (BoolFormula.conjunct fs) p ret next ref v s lo is_composite r fits positive low
        at_ret =
      absurd (omega arith)
  clausifies (suc fuel) (BoolFormula.disjunct fs) p ret next ref v s lo _ (w, e, rs) fits positive
        low at_ret =
      disjunction fuel p ret next ref v s lo positive low at_ret fs w (all_clausify fuel fs) e rs
        (omega arith)
  clausifies (suc fuel) (BoolFormula.conjunct fs) p ret next ref v s lo _ (w, e, rs) fits positive
        low at_ret =
      conjunction fuel p ret next ref v s lo positive low at_ret fs w (all_clausify fuel fs) e rs
        (omega arith)

  all_clausify : (fuel : ℕ) (fs : Formulas) → AllClausify fuel fs
  all_clausify fuel nil = tt
  all_clausify fuel (cons f fs) = (clausifies fuel f, all_clausify fuel fs)

-- The calls for a formula that is no literal.
pub add_clauses-Adds : (fuel : ℕ) (f : BoolFormula) → Clausifies fuel f
add_clauses-Adds fuel f = clausifies fuel f
