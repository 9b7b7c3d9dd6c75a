-- ===== src/BoolFormula/Store/Copy/Read.antt =====
-- `boolformula_copy` on a store, for a formula with any reference counts.
use dorder.Prelude.{
  Run, ℕ, suc, ◌≤◌, ◌≡◌, refl, sym, ap, subst, ◌∙◌, List, [], ◌∷◌, Option, none, some, done, arith,
  length,
}
use dorder.BoolFormula.{BoolFormula, Formulas, nil, cons}
use dorder.BoolFormula.Store.{Ptr, literal, disjunct, conjunct, node, Store}
use dorder.BoolFormula.Store.Free.{IsFull}
use dorder.BoolFormula.Store.Placed.{
  Placed, leaf, disjunction, conjunction, Parts, end, part, root, roots, height, heights,
  formula_of, formulas_of, IsIn, AllIn,
}
use dorder.BoolFormula.Store.Reads.{
  view, view-at, Reads, AllRead, depth, depths, IsIn-Reads, NewFormula,
}
use dorder.BoolFormula.Store.Copy.{copy}
use dorder.BoolFormula.Store.Copy.Copied.{copy-CopyOf}

-- The tree of a formula that is read, with its counts.
record TreeOf (s : Store) (p : Ptr) (f : BoolFormula) : Type 0 where
  tree : Placed
  at_root : root tree ≡ p
  present : IsIn s tree
  formula : formula_of tree ≡ f
  size : height tree ≡ depth f

record TreesOf (s : Store) (v : List (Option Ptr)) (fs : Formulas) : Type 0 where
  parts : Parts
  at_roots : roots parts ≡ v
  present : AllIn s parts
  formulas : formulas_of parts ≡ fs
  size : heights parts ≡ depths fs

mutual
  unfolding Reads IsIn formula_of height depth

  Reads-TreeOf : (s : Store) (p : Ptr) (f : BoolFormula) → Reads (view s) p f → TreeOf s p f
  Reads-TreeOf s p (BoolFormula.literal l) r =
      let (ref, e) = view-at s p (literal l) r in
      record { tree = leaf p ref l; at_root = refl; present = e; formula = refl; size = refl }
  Reads-TreeOf s p (BoolFormula.disjunct fs) (v, e, rs) =
      let (ref, at_p) = view-at s p (disjunct v) e in
      let ts = AllRead-TreesOf s v fs rs in
      record {
        tree = disjunction p ref ts.parts;
        at_root = refl;
        present = (at_p ∙ ap (λ u. node ref (disjunct u)) (sym ts.at_roots), ts.present);
        formula = ap BoolFormula.disjunct ts.formulas;
        size = ap suc ts.size;
      }
  Reads-TreeOf s p (BoolFormula.conjunct fs) (v, e, rs) =
      let (ref, at_p) = view-at s p (conjunct v) e in
      let ts = AllRead-TreesOf s v fs rs in
      record {
        tree = conjunction p ref ts.parts;
        at_root = refl;
        present = (at_p ∙ ap (λ u. node ref (conjunct u)) (sym ts.at_roots), ts.present);
        formula = ap BoolFormula.conjunct ts.formulas;
        size = ap suc ts.size;
      }

  AllRead-TreesOf :
      (s : Store) (v : List (Option Ptr)) (fs : Formulas) → AllRead (view s) v fs → TreesOf s v fs
  AllRead-TreesOf s [] nil rs = record {
    parts = end;
    at_roots = refl;
    present = tt;
    formulas = refl;
    size = refl;
  }
  AllRead-TreesOf s (x ∷ v) nil rs = absurd rs
  AllRead-TreesOf s [] (cons f fs) rs = absurd rs
  AllRead-TreesOf s (none ∷ v) (cons f fs) rs = absurd rs
  AllRead-TreesOf s (some p ∷ v) (cons f fs) rs =
      let t = Reads-TreeOf s p f rs.0 in
      let ts = AllRead-TreesOf s v fs rs.1 in
      record {
        parts = part t.tree ts.parts;
        at_roots = rw (t.at_root, ts.at_roots) refl;
        present = (t.present, ts.present);
        formulas = rw (t.formula, ts.formulas) refl;
        size = rw (t.size, ts.size) refl;
      }

pub copy-NewFormula :
    (s : Store) (p : Ptr) (f : BoolFormula) (fuel : ℕ)
    → Reads (view s) p f
    → depth f ≤ fuel
    → (s' : Store) × (copy fuel p s ≡ done (length s, s')) × NewFormula s s' f
copy-NewFormula s p f fuel r fits =
    let t = Reads-TreeOf s p f r in
    let (s', e, c) = copy-CopyOf t.tree s fuel t.present (omega (arith, t.size)) in
    (
      s',
      subst (λ q. copy fuel q s ≡ done (length s, s')) t.at_root e,
      record {
        there =
            subst (λ q. Reads (view s') q f) c.at_root
              (subst (λ g. Reads (view s') (root c.tree) g) (c.formula ∙ t.formula)
                (IsIn-Reads s' c.tree c.present));
        top = c.top;
        single = c.single;
        old = c.old;
        counted = c.counted;
      },
    )

-- The copy has no slot that was not written.
pub copy-IsFull :
    (s : Store) (p : Ptr) (f : BoolFormula) (fuel : ℕ) (s' : Store)
    → Reads (view s) p f
    → depth f ≤ fuel
    → copy fuel p s ≡ done (length s, s')
    → IsFull s s'
copy-IsFull s p f fuel s' r fits run =
    let t = Reads-TreeOf s p f r in
    let (s₁, e, c) = copy-CopyOf t.tree s fuel t.present (omega (arith, t.size)) in
    subst (IsFull s)
      (same (sym (subst (λ q. copy fuel q s ≡ done (length s, s₁)) t.at_root e) ∙ run)) c.full
  where
    same :
        {u u' : Store}
        → ◌≡◌ {A = Run (Ptr × Store)} (done (length s, u)) (done (length s, u'))
        → u ≡ u'
    same z = cc
