-- ===== src/CdnfFormula/Vectors.antt =====
-- The units of cdnfformula.c and the functions that add to them, on the vectors of vector.c.
use dorder.Prelude.{
  ℕ, ◌+◌, ◌^◌, ◌≤◌, ◌≡◌, refl, sym, subst, List, [], ◌∷◌, ◌++◌, none, Run, done, ◌>>=◌, arith,
  length, length-append, replicate,
}
use mathlib.Core.List.{append-nil, append_assoc}
use dorder.BoolFormula.{Lit}
use dorder.Vector.{Vector, vector_new, vector_add, vector_resize, length_to_size, size_loop}
use dorder.Vector.Laws.{Holds, vector_add-Holds}

abbrev pub MonomialVector : Type 0
MonomialVector = Vector Lit

abbrev pub DisjunctionVector : Type 0
DisjunctionVector = Vector MonomialVector

abbrev pub ConjunctionVector : Type 0
ConjunctionVector = Vector DisjunctionVector

unfoldable pub monomial_unit : Run MonomialVector
unfolding vector_new
monomial_unit = vector_new 0

unfoldable pub disjunction_unit : Run DisjunctionVector
unfolding vector_new
disjunction_unit = vector_new 0

unfoldable pub disjunction_new : ℕ → Run DisjunctionVector
unfolding vector_new
disjunction_new length = vector_new length

unfoldable pub disjunction_add : DisjunctionVector → MonomialVector → Run DisjunctionVector
unfolding vector_add
disjunction_add f disj = vector_add f disj

unfoldable pub conjunction_unit : Run ConjunctionVector
unfolding vector_new
conjunction_unit = vector_new 0

unfoldable pub conjunction_new : ℕ → Run ConjunctionVector
unfolding vector_new
conjunction_new length = vector_new length

unfoldable pub conjunction_add : ConjunctionVector → DisjunctionVector → Run ConjunctionVector
unfolding vector_add
conjunction_add f conj = vector_add f conj

-- Adding the elements of a list, one after another.
abbrev pub add_each :
    {A : Type 0} → (Vector A → A → Run (Vector A)) → Vector A → List A → Run (Vector A)
add_each add v [] = done v
add_each add v (x ∷ xs) = do v' ← add v x; add_each add v' xs

unit-Holds : (A : Type 0) → (v : Vector A) × (vector_new {A = A} 0 ≡ done v) × Holds v []
unfolding vector_new vector_resize length_to_size size_loop
unit-Holds A = (
  record { len = 0; size = 8; buffer = replicate 8 none },
  refl,
  record { len = refl; room = omega arith; size = refl; slots = λ i h. absurd (omega arith) },
)

add_each-Holds :
    {A : Type 0} (v : Vector A) (xs ys : List A)
    → Holds v xs
    → length xs + length ys ≤ 2 ^ 62
    → (w : Vector A) × (add_each vector_add v ys ≡ done w) × Holds w (xs ++ ys)
add_each-Holds v xs [] h b = (v, refl, subst (Holds v) (sym (append-nil xs)) h)
add_each-Holds v xs (y ∷ ys) h b =
    let (v', e, h') = vector_add-Holds v xs y h (omega arith) in
    let (w, r, k) =
      add_each-Holds v' (xs ++ y ∷ []) ys h' (omega (arith, length-append xs (y ∷ []))) in
    (w, rw e r, subst (Holds w) (append_assoc xs (y ∷ []) ys) k)

-- A conjunction that is made of the unit by adding up to 2^62 disjunctions, one after another, holds
-- them in their order, and no assertion fails; the same for a disjunction and its monomials.
unit-add_each :
    (ds : List DisjunctionVector) (ms : List MonomialVector)
    → length ds ≤ 2 ^ 62
    → length ms ≤ 2 ^ 62
    → ((f : ConjunctionVector) × ((do u ← conjunction_unit; add_each conjunction_add u ds) ≡ done f)
        × Holds f ds)
      × ((d : DisjunctionVector) × ((do u ← disjunction_unit; add_each disjunction_add u ms)
            ≡ done d)
          × Holds d ms)
unfolding conjunction_unit conjunction_add disjunction_unit disjunction_add
unit-add_each ds ms b b' =
    let (u, e, h) = unit-Holds DisjunctionVector in
    let (f, r, k) = add_each-Holds u [] ds h (omega arith) in
    let (u', e', h') = unit-Holds MonomialVector in
    let (d, r', k') = add_each-Holds u' [] ms h' (omega arith) in
    ((f, rw e r, k), (d, rw e' r', k'))
