-- ===== src/BoolFormula/Store/Cnf/Conjunct.antt =====
-- The loop of `add_clauses_to_boolformula` over a conjunction on a store.
use dorder.Prelude.{
  ℕ, suc, ◌+◌, ◌≤◌, ◌<◌, ◌≡◌, refl, sym, ap, ◌∙◌, pos, negate, List, [], ◌∷◌, ◌++◌, Option, none,
  some, done, arith, length, length-append,
}
use mathlib.Core.List.{append-nil, append_assoc}
use dorder.BoolFormula.{Lit, BoolFormula, Formulas, nil, cons, append}
use dorder.BoolFormula.Cnf as Tree
use dorder.BoolFormula.Store.{Ptr, literal, disjunct, conjunct, node, Store}
use dorder.BoolFormula.Store.Count.{at, is_live, at-lt}
use dorder.BoolFormula.Store.Reads.{
  view, below, Reads, AllRead-Contains, Reads-Contains, AllRead, below-Contains, depth, depths,
}
use dorder.BoolFormula.Store.Copy.Made.{lt→ne}
use dorder.BoolFormula.Store.Copy.Slots.{read_slot-done}
use dorder.BoolFormula.Store.Cnf.{add_clauses, conjunct_clauses}
use dorder.BoolFormula.Store.Cnf.Steps.{free-Drops}
use dorder.BoolFormula.Store.Cnf.Made.{Clausifies, AllClausify, PartOf, Clauses}
use dorder.BoolFormula.Store.Cnf.Parts.{place_part-PlacesPart}
use dorder.BoolFormula.Store.Cnf.Clause.{opens, clause-Clauses, append-Clauses, part-Literals}

conjunct_loop-cons :
    (f : BoolFormula) (fs : Formulas) (cur next next₁ next₂ : ℕ) (l : Lit) (cs rest : Formulas)
    → PartOf f next l cs next₁
    → Tree.conjunct_loop fs cur next₁ ≡ done (rest, next₂)
    → Tree.conjunct_loop (cons f fs) cur next
      ≡ done (append (cons (Tree.clause (negate (pos cur)) l) cs) rest, next₂)
unfolding Tree.conjunct_loop
conjunct_loop-cons (BoolFormula.literal k) fs cur next next₁ next₂ l cs rest (a, b, c) e =
    rw (a, b, ← c, e) refl
conjunct_loop-cons (BoolFormula.disjunct gs) fs cur next next₁ next₂ l cs rest (a, b) e =
    rw (a, b, e) refl
conjunct_loop-cons (BoolFormula.conjunct gs) fs cur next next₁ next₂ l cs rest (a, b) e =
    rw (a, b, e) refl

module _ (fuel : ℕ) (f cur_neg ret : Ptr) (lo b ref fr cur : ℕ) (all : List (Option Ptr))
    (inside : f < lo) (low : lo ≤ ret) (front : ret < b) (behind : b ≤ cur_neg) where
  -- What the loop starts from.
  pub record Ready (s : Store) (pre₀ w : List (Option Ptr)) (i next m : ℕ) (v : List (Option Ptr))
      (gs : Formulas) : Type 0 where
    pub source : at s f ≡ node fr (conjunct all)
    pub split : all ≡ pre₀ ++ w
    pub index : length pre₀ ≡ i
    pub result : at s ret ≡ node ref (conjunct v)
    pub sign : at s cur_neg ≡ node m (literal (negate (pos cur)))
    pub read : AllRead (below lo (view s)) w gs
    pub positive : 0 < next

  module _ (s : Store) (pre₀ w : List (Option Ptr)) (i next m : ℕ) (v : List (Option Ptr)) (p : Ptr)
      (g : BoolFormula) (gs : Formulas) (r : Ready s pre₀ (some p ∷ w) i next m v (cons g gs)) where
    room : ret < length s
    room = at-lt s ret (ap is_live r.result)

    room' : cur_neg < length s
    room' = at-lt s cur_neg (ap is_live r.sign)

    -- The clause of one subformula, and what follows from it.
    round :
        Clausifies fuel g
        → depth g ≤ fuel
        → (s' : Store) × (next' : ℕ) × (l : Lit) × (cs : Formulas) × ((n : ℕ)
            → conjunct_clauses (add_clauses fuel ret) ret f cur_neg i (suc n) next s
              ≡ conjunct_clauses (add_clauses fuel ret) ret f cur_neg (suc i) n next' s')
          × PartOf g next l cs next'
          × (next ≤ next')
          × Clauses s s' b cur_neg m 1
              (negate (pos cur))
              ret
              ref
              v
              (cons (Tree.clause (negate (pos cur)) l) cs)
    unfolding conjunct_clauses Reads
    round ih fits =
        let dis = length s in
        let (s₂, s₃, r₂, r₃, o) =
          opens b cur_neg (negate (pos cur)) ret ref front behind s m 1 v r.result r.sign in
        let low_old : (q : Ptr) → q < lo → at s₃ q ≡ at s q = λ q h.
          o.others q (omega (arith, room)) (λ e. lt→ne q ret (omega arith) (sym e))
            (λ e. lt→ne q cur_neg (omega arith) (sym e)) in
        let (s₄, next', l, cs, r₄, t, le, part) =
          place_part-PlacesPart s₃ dis 2 (some cur_neg ∷ []) [] ret ref (v ++ some dis ∷ []) lo low
            (omega (arith, room)) (lt→ne ret dis room) o.target o.result fuel next r.positive p g ih
            (Reads-Contains _ _ p g (below-Contains lo s s₃ low_old) r.read.0) fits in
        let w' =
          part-Literals s₃ s₄ dis 2 (some cur_neg ∷ []) ret ref (v ++ some dis ∷ []) l cs part in
        let (s₅, r₅, d) =
          free-Drops (length s₄) s₄ dis 0 (disjunct (some cur_neg ∷ w'.written)) w'.parent in
        (
          s₅,
          next',
          l,
          cs,
          λ n.
              rw
                (
                  r₂,
                  r₃,
                  read_slot-done s₃ f i fr (conjunct all) pre₀ w p (low_old f inside ∙ r.source)
                      r.split r.index,
                )
                (rw (r₄, r₅) refl),
          t,
          le,
          clause-Clauses b cur_neg (negate (pos cur)) ret ref front behind s s₃ s₄ s₅ m 1 v
              (cons (BoolFormula.literal l) nil) cs room room' o w' d,
        )

    module _ (s₁ : Store) (next₁ : ℕ) (cs : Formulas)
        (one : Clauses s s₁ b cur_neg m 1 (negate (pos cur)) ret ref v cs) where
      low_old : (q : Ptr) → q < lo → at s₁ q ≡ at s q
      low_old q h =
          one.old q (omega (arith, room)) (λ e. lt→ne q ret (omega arith) (sym e))
            (λ e. lt→ne q cur_neg (omega arith) (sym e))

      next-Ready :
          next ≤ next₁
          → Ready s₁ (pre₀ ++ some p ∷ []) w (suc i) next₁ (m + 1) (v ++ one.clauses) gs
      unfolding Reads
      next-Ready le = record {
        source = low_old f inside ∙ r.source;
        split = r.split ∙ sym (append_assoc pre₀ (some p ∷ []) w);
        index = omega (arith, r.index, length-append pre₀ (some p ∷ []));
        result = one.result;
        sign = one.sign;
        read = AllRead-Contains _ _ w gs (below-Contains lo s s₁ low_old) r.read.1;
        positive = omega (arith, r.positive);
      }

  pub conjunct_clauses-Clauses :
      (gs : Formulas) (w pre₀ : List (Option Ptr)) (i next m : ℕ) (v : List (Option Ptr))
      (s : Store)
      → AllClausify fuel gs
      → Ready s pre₀ w i next m v gs
      → depths gs ≤ fuel
      → (s' : Store) × (next' : ℕ) × (cs : Formulas) × (conjunct_clauses
            (add_clauses fuel ret)
            ret
            f
            cur_neg
            i
            (length w)
            next
            s
          ≡ done (next', s'))
        × (Tree.conjunct_loop gs cur next ≡ done (cs, next'))
        × (next ≤ next')
        × Clauses s s' b cur_neg m (length w) (negate (pos cur)) ret ref v cs
  unfolding conjunct_clauses Reads depth Tree.conjunct_loop
  conjunct_clauses-Clauses nil [] pre₀ i next m v s ns r fits = (
    s,
    next,
    nil,
    refl,
    refl,
    omega arith,
    record {
      sign = r.sign ∙ ap (λ u. node u (literal (negate (pos cur)))) (omega arith);
      clauses = [];
      result = r.result ∙ ap (λ u. node ref (conjunct u)) (sym (append-nil v));
      read = tt;
      old = λ q h a z. refl;
      grows = omega arith;
      counted = λ lost held acc. acc;
    },
  )
  conjunct_clauses-Clauses nil (x ∷ w) pre₀ i next m v s ns r fits = absurd r.read
  conjunct_clauses-Clauses (cons g gs) [] pre₀ i next m v s ns r fits = absurd r.read
  conjunct_clauses-Clauses (cons g gs) (none ∷ w) pre₀ i next m v s ns r fits = absurd r.read
  conjunct_clauses-Clauses (cons g gs) (some p ∷ w) pre₀ i next m v s ns r fits =
      let (s₁, next₁, l, cs, r₁, t, le, one) =
        round s pre₀ w i next m v p g gs r ns.0 (omega arith) in
      let (s', next', cs', r₂, t', le', two) =
        conjunct_clauses-Clauses gs w (pre₀ ++ some p ∷ []) (suc i) next₁ (m + 1) (v ++ one.clauses)
          s₁ ns.1 (next-Ready s pre₀ w i next m v p g gs r s₁ next₁ _ one le) (omega arith) in
      (
        s',
        next',
        append (cons (Tree.clause (negate (pos cur)) l) cs) cs',
        r₁ (length w) ∙ r₂,
        conjunct_loop-cons g gs cur next next₁ next' l cs cs' t t',
        omega arith,
        append-Clauses b cur_neg (negate (pos cur)) ret ref front behind s s₁ s' m 1 (length w)
            (suc (length w)) v _ cs' (omega arith) (at-lt s ret (ap is_live r.result))
            (at-lt s cur_neg (ap is_live r.sign)) one two,
      )
