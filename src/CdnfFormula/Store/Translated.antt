-- ===== src/CdnfFormula/Store/Translated.antt =====
-- The formulas that `cdnfformula_to_boolformula` makes on the store, next to those on trees.
use dorder.Prelude.{◌++◌, ◌≡◌, refl, ap, subst, [], ◌∷◌, done, arith, length, length-append}
use dorder.BoolFormula.{Lit, BoolFormula, cons}
use dorder.BoolFormula.Store.{literal, node, Store}
use dorder.BoolFormula.Store.Changes.{malloc-IsCounted, at-append_lt, at-append_self}
use dorder.BoolFormula.Store.Reads.{Reads, content_of, above_new}
use dorder.BoolFormula.Store.Copy.Made.{IsFull-literal}
use dorder.BoolFormula.Store.Copy.Slots.{Connective}
use dorder.CdnfFormula as Tree
use dorder.CdnfFormula.{Monomial, Disjunction, Conjunction}
use dorder.CdnfFormula.Store.{
  make_literal, monomial_to_boolformula, dnf_to_boolformula, to_boolformula,
}
use dorder.CdnfFormula.Store.Fills.{Builds, each, fill_slots-Builds}

make_literal-Builds :
    (l : Lit) (s : Store)
    → (s' : Store) × (make_literal l s ≡ done (length s, s')) × Builds s s' (BoolFormula.literal l)
unfolding Reads
make_literal-Builds l s =
    let s' = s ++ node 1 (literal l) ∷ [] in
    let here = at-append_self s (node 1 (literal l)) in
    (
      s',
      refl,
      record {
        there = above_new (length s) s' (length s) (literal l) (omega arith) (ap content_of here);
        top = literal l;
        single = here;
        old = λ q h. at-append_lt s _ q h;
        grows = omega (arith, length-append s (node 1 (literal l) ∷ []));
        counted = λ lost held acc. malloc-IsCounted lost s held acc (literal l) refl;
        full = IsFull-literal s l;
      },
    )

each-literals_of :
    (m : Monomial)
    → each make_literal BoolFormula.literal make_literal-Builds m ≡ Tree.literals_of m
unfolding Tree.literals_of
each-literals_of [] = refl
each-literals_of (l ∷ m) = ap (cons (BoolFormula.literal l)) (each-literals_of m)

monomial-Builds :
    (m : Monomial) (s : Store)
    → (s' : Store) × (monomial_to_boolformula m s ≡ done (length s, s'))
      × Builds s s' (Tree.monomial_to_boolformula m)
unfolding monomial_to_boolformula Tree.monomial_to_boolformula
monomial-Builds m s =
    let (s', r, b) =
      fill_slots-Builds make_literal BoolFormula.literal make_literal-Builds Connective.conjunction
        m s in
    (s', rw r refl, subst (λ fs. Builds s s' (BoolFormula.conjunct fs)) (each-literals_of m) b)

each-monomials_of :
    (f : Disjunction)
    → each monomial_to_boolformula Tree.monomial_to_boolformula monomial-Builds f
      ≡ Tree.monomials_of f
unfolding Tree.monomials_of
each-monomials_of [] = refl
each-monomials_of (m ∷ f) = ap (cons (Tree.monomial_to_boolformula m)) (each-monomials_of f)

dnf-Builds :
    (f : Disjunction) (s : Store)
    → (s' : Store) × (dnf_to_boolformula f s ≡ done (length s, s'))
      × Builds s s' (Tree.dnf_to_boolformula f)
unfolding dnf_to_boolformula Tree.dnf_to_boolformula
dnf-Builds f s =
    let (s', r, b) =
      fill_slots-Builds monomial_to_boolformula Tree.monomial_to_boolformula monomial-Builds
        Connective.disjunction f s in
    (s', rw r refl, subst (λ fs. Builds s s' (BoolFormula.disjunct fs)) (each-monomials_of f) b)

each-disjunctions_of :
    (f : Conjunction)
    → each dnf_to_boolformula Tree.dnf_to_boolformula dnf-Builds f ≡ Tree.disjunctions_of f
unfolding Tree.disjunctions_of
each-disjunctions_of [] = refl
each-disjunctions_of (d ∷ f) = ap (cons (Tree.dnf_to_boolformula d)) (each-disjunctions_of f)

-- `cdnfformula_to_boolformula` ends with a new object of the count 1 that stands for the formula which the
-- function on trees returns, all of which is new; all objects that were there are what they were, and
-- right reference counts stay right, without a reference that is lost.
pub to_boolformula-Builds :
    (f : Conjunction) (s : Store)
    → (s' : Store) × (to_boolformula f s ≡ done (length s, s'))
      × Builds s s' (Tree.to_boolformula f)
unfolding to_boolformula Tree.to_boolformula
to_boolformula-Builds f s =
    let (s', r, b) =
      fill_slots-Builds dnf_to_boolformula Tree.dnf_to_boolformula dnf-Builds Connective.conjunction
        f s in
    (s', rw r refl, subst (λ fs. Builds s s' (BoolFormula.conjunct fs)) (each-disjunctions_of f) b)
