-- ===== src/Stubs/Transformed.antt =====
-- `ocaml_to_cnf` and `ocaml_copy` of cdnfp_stubs.c: the formulas that their wrappers stand for.
use dorder.Prelude.{ℕ, ◌≤◌, ◌<◌, ◌≡◌, refl, sym, ap, subst, ◌∙◌, some, done, length, set}
use native.Mathlib.Decide.{ℕ_discrete}
use dorder.BoolFormula.{BoolFormula, num_of_var}
use dorder.BoolFormula.Cnf.Correct.{IsCnfOf, to_cnf-IsCnfOf}
use dorder.BoolFormula.Store.{Ptr, Content, node, Store, retain}
use dorder.BoolFormula.Store.Count.{at, is_live}
use dorder.BoolFormula.Store.Free.{load-done, at-set_self, at-set_ne}
use dorder.BoolFormula.Store.Reads.{view, Reads, Reads-Contains, Contains, content_of, NewFormula}
use dorder.BoolFormula.Store.Depth.{depth-length}
use dorder.BoolFormula.Store.Copy.Made.{lt→ne}
use dorder.BoolFormula.Store.Copy.Read.{copy-NewFormula}
use dorder.BoolFormula.Store.Cnf.Result.{to_cnf-NewFormula}
use dorder.Stubs.Handles.{val_boolformula, ocaml_to_cnf, ocaml_copy}

-- The new object after the last one stands for the formula, and no other object has changed. It has the
-- count 2: that of its maker, which is not given back, and that of the wrapper.
pub record Wraps (s s' : Store) (f : BoolFormula) : Type 0 where
  pub there : Reads (view s') (length s) f
  pub top : Content
  pub twice : at s' (length s) ≡ node 2 top
  pub old : (q : Ptr) → q < length s → at s' q ≡ at s q

val-Wraps :
    (s s₁ : Store) (f : BoolFormula)
    → NewFormula s s₁ f
    → (s' : Store) × (val_boolformula (length s) s₁ ≡ done (length s, s')) × Wraps s s' f
unfolding val_boolformula retain
val-Wraps s s₁ f n =
    let live = ap is_live n.single in
    let s' = set s₁ (length s) (node 2 n.top) in
    let self = at-set_self s₁ (length s) (node 2 n.top) live in
    let same : Contains (view s₁) (view s') = λ p c e. elim (ℕ_discrete (length s) p) [
      | yes y ↦
          subst (λ q. view s₁ q ≡ some c → view s' q ≡ some c) y
            (λ z. ap content_of self ∙ (sym (ap content_of n.single) ∙ z)) e
      | no y ↦ ap content_of (at-set_ne s₁ (length s) p (node 2 n.top) y) ∙ e
    ] in
    (
      s',
      rw (load-done s₁ (length s) n.single) refl,
      record {
        there = Reads-Contains _ _ (length s) f same n.there;
        top = n.top;
        twice = self;
        old = λ q h.
            at-set_ne s₁ (length s) q (node 2 n.top) (λ e. lt→ne q (length s) h (sym e))
            ∙ n.old q h;
      },
    )

-- `ocaml_copy` returns a wrapper of a new object that stands for the same formula.
ocaml_copy-Wraps :
    (s : Store) (p : Ptr) (f : BoolFormula)
    → Reads (view s) p f
    → (s' : Store) × (ocaml_copy p s ≡ done (length s, s')) × Wraps s s' f
unfolding ocaml_copy
ocaml_copy-Wraps s p f r =
    let (s₁, e, n) = copy-NewFormula s p f (length s) r (depth-length s p f r) in
    let (s', e', w) = val-Wraps s s₁ f n in (s', rw e e', w)

-- Let a wrapped object stand for a formula over the variables up to `num_var`, whatever the counts are and
-- whichever parts are shared. Then `ocaml_to_cnf` returns a wrapper of a new object that stands for a
-- formula of which every model is one of the given formula, and of which every model of that formula
-- yields one with the same values of these variables. No object that was there has changed.
pub ocaml_to_cnf-Wraps :
    (s : Store) (p : Ptr) (f : BoolFormula) (num_var : ℕ)
    → Reads (view s) p f
    → num_of_var f ≤ num_var
    → (s' : Store) × (g : BoolFormula) × (ocaml_to_cnf p num_var s ≡ done (length s, s'))
      × Wraps s s' g
      × IsCnfOf f num_var g
unfolding ocaml_to_cnf
ocaml_to_cnf-Wraps s p f num_var r below =
    let (s₁, g, e, t, n) = to_cnf-NewFormula s p f (length s) num_var r (depth-length s p f r) in
    let (g', t', c) = to_cnf-IsCnfOf f num_var below in
    let (s', e', w) = val-Wraps s s₁ g n in
    (s', g, rw e e', w, subst (IsCnfOf f num_var) (same (sym t' ∙ t)) c)
  where
    same : {a b : BoolFormula} → done a ≡ done b → a ≡ b
    same z = cc
