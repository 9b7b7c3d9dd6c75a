-- ===== src/BoolFormula/Store/Cnf/Result.antt =====
-- `boolformula_to_cnf` on a store, next to the function on trees.
use dorder.Prelude.{
  ℕ, ◌+◌, ◌≤◌, ◌<◌, ◌≡◌, ◌≢◌, refl, sym, ap, ◌∙◌, pos, [], ◌∷◌, ◌++◌, some, done, arith, length,
}
use dorder.BoolFormula.{Lit, BoolFormula, Formulas, cons}
use dorder.BoolFormula.Cnf as Tree
use dorder.BoolFormula.Store.{Ptr, Content, literal, disjunct, conjunct, node, Store}
use dorder.BoolFormula.Store.Count.{at}
use dorder.BoolFormula.Store.Free.{load-done}
use dorder.BoolFormula.Store.Changes.{malloc-IsCounted, at-append_lt, at-append_self}
use dorder.BoolFormula.Store.Copy.Read.{copy-NewFormula}
use dorder.BoolFormula.Store.Copy.Made.{lt→ne}
use dorder.BoolFormula.Store.Reads.{
  NewFormula, view, content_of, above, Reads, AllRead-Contains, Reads-Contains, Contains,
  below-Contains, above-Contains, view-at, view-below, above-view, depth,
}
use dorder.BoolFormula.Store.Cnf.{to_cnf, to_cnf_composite}
use dorder.BoolFormula.Store.Cnf.Steps.{add-Links, Drops, free-Drops, length_new}
use dorder.BoolFormula.Store.Cnf.Made.{Adds, IsComposite}
use dorder.BoolFormula.Store.Cnf.Composite.{add_clauses-Adds}

-- The clauses that follow the first one, and the end of the literal `cur`.
module _ (s s₃ s₄ s₅ : Store) (ret cur : Ptr) (l : Lit) (cs : Formulas) (ne : ret ≢ cur)
    (in_cur : cur < length s₃) (at_cur : at s₃ cur ≡ node 2 (literal l))
    (a : Adds s₃ s₄ ret 1 (some cur ∷ []) cs) (d : Drops s₄ s₅ cur 1 (literal l)) where
  keep : (q : Ptr) (c : Content) → length s₃ ≤ q → view s₄ q ≡ some c → view s₅ q ≡ some c
  keep q c h e = ap content_of (d.others q (lt→ne cur q (omega arith))) ∙ e

  carry : Contains (above (length s₃) (view s₄)) (view s₅)
  carry q c e = above-view (length s₃) (view s₅) q c (above-Contains (length s₃) s₄ s₅ keep q c e)

  result : at s₅ ret ≡ node 1 (conjunct (some cur ∷ a.clauses))
  result = d.others ret (λ e. ne (sym e)) ∙ a.result

  joined : Reads (view s₅) ret (BoolFormula.conjunct (cons (BoolFormula.literal l) cs))
  unfolding Reads
  joined = (
    some cur ∷ a.clauses,
    ap content_of result,
    (ap content_of d.self, AllRead-Contains _ _ a.clauses cs carry a.read),
  )

-- The formula is no literal.
composite :
    (s : Store) (p : Ptr) (f : BoolFormula) (fuel num_var : ℕ)
    → IsComposite f
    → Reads (view s) p f
    → depth f ≤ fuel
    → (s' : Store) × (g : BoolFormula) × (to_cnf_composite fuel p num_var s ≡ done (length s, s'))
      × (Tree.to_cnf_composite f num_var ≡ done g)
      × NewFormula s s' g
unfolding to_cnf_composite Tree.to_cnf_composite
composite s p f fuel num_var is_composite r fits =
    let l = pos (num_var + 1) in
    let ret = length s in
    let s₁ = s ++ node 1 (conjunct []) ∷ [] in
    let cur = length s₁ in
    let size = length_new s (conjunct []) in
    let s₂ = s₁ ++ node 1 (literal l) ∷ [] in
    let ne = lt→ne ret cur (omega (arith, size)) in
    let (s₃, r₃, k) =
      add-Links s₂ ret cur 1 1 [] (literal l)
        (at-append_lt s₁ _ ret (omega (arith, size)) ∙ at-append_self s (node 1 (conjunct [])))
        (at-append_self s₁ (node 1 (literal l))) ne in
    let old₃ : (q : Ptr) → q < length s → at s₃ q ≡ at s q = λ q h.
      k.others q (λ e. lt→ne q ret h (sym e)) (λ e. lt→ne q cur (omega (arith, size)) (sym e))
      ∙ (at-append_lt s₁ _ q (omega (arith, size)) ∙ at-append_lt s _ q h) in
    let in_cur : cur < length s₃ = omega (arith, k.size, length_new s₁ (literal l)) in
    let (s₄, next, cs, r₄, t, le, a) =
      add_clauses-Adds fuel f p ret (num_var + 1) 1 (some cur ∷ []) s₃ (length s) is_composite
        (Reads-Contains _ _ p f (below-Contains (length s) s s₃ old₃)
          (Reads-Contains _ _ p f (view-below s) r))
        fits (omega arith) (omega arith) k.parent in
    let (s₅, r₅, d) = free-Drops (length s₄) s₄ cur 0 (literal l) (a.old cur in_cur ne ∙ k.child) in
    (
      s₅,
      BoolFormula.conjunct (cons (BoolFormula.literal l) cs),
      rw (r₃, r₄) (rw r₅ refl),
      rw t refl,
      record {
        there = joined s s₃ s₄ s₅ ret cur l cs ne in_cur k.child a d;
        top = conjunct (some cur ∷ a.clauses);
        single = result s s₃ s₄ s₅ ret cur l cs ne in_cur k.child a d;
        old = λ q h.
            d.others q (λ e. lt→ne q cur (omega (arith, size)) (sym e))
            ∙ (a.old q (omega (arith, size, in_cur)) (λ e. lt→ne q ret h (sym e)) ∙ old₃ q h);
        counted = λ lost held acc. d.counted lost (ret ∷ held) (
            a.counted lost (cur ∷ ret ∷ held) (
              k.counted lost (cur ∷ ret ∷ held) (
                malloc-IsCounted lost s₁ (ret ∷ held)
                  (malloc-IsCounted lost s held acc (conjunct []) refl) (literal l) refl)));
      },
    )

-- Let an object stand for a formula, whatever the counts are and whichever parts are shared, and let the
-- calls be allowed to nest as deep as the formula is. Then `boolformula_to_cnf` ends with a new object of
-- the count 1 that stands for the formula which the function on trees returns, and all objects that were
-- there are what they were, their counts included. If the reference counts were right, they are when the
-- caller holds the new object, too, and no reference is lost.
pub to_cnf-NewFormula :
    (s : Store) (p : Ptr) (f : BoolFormula) (fuel num_var : ℕ)
    → Reads (view s) p f
    → depth f ≤ fuel
    → (s' : Store) × (g : BoolFormula) × (to_cnf fuel p num_var s ≡ done (length s, s'))
      × (Tree.to_cnf f num_var ≡ done g)
      × NewFormula s s' g
unfolding to_cnf Tree.to_cnf Reads depth
to_cnf-NewFormula s p (BoolFormula.literal l) fuel num_var r fits =
    let (ref, at_p) = view-at s p (literal l) r in
    let (s', e, n) = copy-NewFormula s p (BoolFormula.literal l) fuel r fits in
    (s', BoolFormula.literal l, rw (load-done s p at_p) e, refl, n)
to_cnf-NewFormula s p (BoolFormula.disjunct fs) fuel num_var (v, e, rs) fits =
    let (ref, at_p) = view-at s p (disjunct v) e in
    let (s', g, r, t, n) =
      composite s p (BoolFormula.disjunct fs) fuel num_var tt (v, e, rs) fits in
    (s', g, rw (load-done s p at_p) r, t, n)
to_cnf-NewFormula s p (BoolFormula.conjunct fs) fuel num_var (v, e, rs) fits =
    let (ref, at_p) = view-at s p (conjunct v) e in
    let (s', g, r, t, n) =
      composite s p (BoolFormula.conjunct fs) fuel num_var tt (v, e, rs) fits in
    (s', g, rw (load-done s p at_p) r, t, n)
