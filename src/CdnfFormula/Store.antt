-- ===== src/CdnfFormula/Store.antt =====
-- `cdnfformula_to_boolformula` of cdnfformula.c and the functions that it calls, on the store of
-- boolformula.c.
pub mod Fills
pub mod Translated
use dorder.Prelude.{ℕ, suc, List, [], ◌∷◌, Run, done, ◌>>=◌, length}
use dorder.BoolFormula.{Lit}
use dorder.BoolFormula.Store.{
  Ptr, Store, literal_new, disjunction_new, conjunction_new, set_subformula, free,
}
use dorder.CdnfFormula.{Monomial, Disjunction, Conjunction}

-- The loop of the three functions from the index `i` on: the formula that is made of an element is
-- written to its slot of `ret`, and given back.
unfoldable pub fill_slots {ℓ} :
    {A : Type ℓ} → (A → Store → Run (Ptr × Store)) → Ptr → ℕ → List A → Store → Run Store
unfolding set_subformula free
fill_slots make ret i [] s = done s
fill_slots make ret i (x ∷ xs) s = do
  (temp, s₁) ← make x s
  s₂ ← set_subformula ret i temp s₁
  s₃ ← free (suc (length s₂)) temp s₂
  fill_slots make ret (suc i) xs s₃

abbrev pub make_literal : Lit → Store → Run (Ptr × Store)
make_literal l s = done (literal_new l s)

unfoldable pub monomial_to_boolformula : Monomial → Store → Run (Ptr × Store)
unfolding fill_slots
monomial_to_boolformula m s = do
  let (ret, s₀) = conjunction_new (length m) s
  s' ← fill_slots make_literal ret 0 m s₀
  done (ret, s')

unfoldable pub dnf_to_boolformula : Disjunction → Store → Run (Ptr × Store)
unfolding fill_slots monomial_to_boolformula
dnf_to_boolformula f s = do
  let (ret, s₀) = disjunction_new (length f) s
  s' ← fill_slots monomial_to_boolformula ret 0 f s₀
  done (ret, s')

unfoldable pub to_boolformula : Conjunction → Store → Run (Ptr × Store)
unfolding fill_slots dnf_to_boolformula
to_boolformula f s = do
  let (ret, s₀) = conjunction_new (length f) s
  s' ← fill_slots dnf_to_boolformula ret 0 f s₀
  done (ret, s')
