-- ===== src/BoolFormula/Store/Shared.antt =====
-- `boolformula_neg` of boolformula.c on a formula with a part that stands in two slots.
use dorder.Prelude.{ℕ, suc, ◌≡◌, ◌≢◌, refl, sym, ap, ◌∙◌, [], ◌∷◌, some, negate, done, set}
use dorder.BoolFormula.{Lit}
use dorder.BoolFormula.Store.{Ptr, literal, disjunct, conjunct, node, Store, neg}
use dorder.BoolFormula.Store.Count.{at, is_live}
use dorder.BoolFormula.Store.Free.{at-set_self, at-set_ne}
use dorder.BoolFormula.Store.Neg.{neg-done, for_slots_step, end_slots}

neg_literal :
    (fuel : ℕ) (q : Ptr) (s : Store) (ref : ℕ) (l : Lit)
    → at s q ≡ node ref (literal l)
    → neg (suc fuel) q s ≡ done (set s q (node ref (literal (negate l))))
neg_literal fuel q s ref l e = neg-done fuel q s _ ref (literal l) e (end_slots fuel q 0 _)

-- A part that stands in two slots is negated twice: `boolformula_neg` of a disjunction whose two slots
-- hold one literal ends with a conjunction of the same literal twice, negated and negated again.
neg_shared :
    (s : Store) (p q : Ptr) (ref ref' : ℕ) (l : Lit) (fuel : ℕ)
    → at s p ≡ node ref (disjunct (some q ∷ some q ∷ []))
    → at s q ≡ node ref' (literal l)
    → p ≢ q
    → (s' : Store) × (neg (suc (suc fuel)) p s ≡ done s')
      × (at s' p ≡ node ref (conjunct (some q ∷ some q ∷ [])))
      × (at s' q ≡ node ref' (literal (negate (negate l))))
neg_shared s p q ref ref' l fuel hp hq ne =
    let v = some q ∷ some q ∷ [] in
    let s₁ = set s p (node ref (conjunct v)) in
    let s₂ = set s₁ q (node ref' (literal (negate l))) in
    let s₃ = set s₂ q (node ref' (literal (negate (negate l)))) in
    let p₁ : at s₁ p ≡ node ref (conjunct v) = at-set_self s p _ (ap is_live hp) in
    let q₁ : at s₁ q ≡ node ref' (literal l) = at-set_ne s p q _ ne ∙ hq in
    let p₂ : at s₂ p ≡ node ref (conjunct v) = at-set_ne s₁ q p _ (λ e. ne (sym e)) ∙ p₁ in
    let q₂ : at s₂ q ≡ node ref' (literal (negate l)) = at-set_self s₁ q _ (ap is_live q₁) in
    (
      s₃,
      neg-done (suc fuel) p s s₃ ref (disjunct v) hp (
          for_slots_step (neg (suc fuel)) p [] (some q ∷ []) q ref (conjunct v) s₁ s₂ s₃ p₁ refl
            (neg_literal fuel q s₁ ref' l q₁)
            (for_slots_step (neg (suc fuel)) p (some q ∷ []) [] q ref (conjunct v) s₂ s₃ s₃ p₂ refl
              (neg_literal fuel q s₂ ref' (negate l) q₂) (end_slots (suc fuel) p 2 s₃))),
      at-set_ne s₂ q p _ (λ e. ne (sym e)) ∙ p₂,
      at-set_self s₂ q _ (ap is_live q₂),
    )
