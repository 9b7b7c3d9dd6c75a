-- ===== src/BoolFormula/Store/Copy/Made.antt =====
-- What `boolformula_copy` and its loop have made when they end.
use dorder.Prelude.{
  ℕ, suc, refl, get_or-ge, length-append, ◌≤◌, ◌<◌, ◌≡◌, ◌≢◌, sym, ap, subst, List, [], ◌∷◌, ◌++◌,
  Option, ◌⊎◌, inl, inr, done, arith, length,
}
use native.Mathlib.Decide.{ℕ_discrete, dec_lt}
use dorder.BoolFormula.Store.{Ptr, Content, literal, freed, node, Store}
use dorder.BoolFormula.Store.Count.{
  cell_slots, KeepsCounts, HoldsNew, count, at, is_live, at-lt, count-append,
}
use dorder.BoolFormula.Store.Free.{IsFilled, IsFull}
use dorder.BoolFormula.Store.Calls.{count_ne}
use dorder.BoolFormula.{Lit}
use dorder.BoolFormula.Store.Changes.{at-append_self}
use dorder.BoolFormula.Store.Placed.{
  Placed, leaf, disjunction, conjunction, Parts, end, part, root, roots, addresses, all_addresses,
  height, formula_of, formulas_of, IsIn, AllIn,
}
use dorder.BoolFormula.Store.Copy.{copy}
use dorder.BoolFormula.Store.Copy.Slots.{Connective, content}

pub lt→ne : (a b : ℕ) → a < b → a ≢ b
lt→ne a b h e = omega (arith, e)

pub count-cons : (q p : Ptr) (ps : List Ptr) → 0 < count q (p ∷ ps) → (p ≡ q) ⊎ (0 < count q ps)
count-cons q p ps h = elim (ℕ_discrete p q) [
  | yes e ↦ inl e
  | no ne ↦ inr (omega (arith, count_ne q p ps (λ e. ne (sym e))))
]

-- The objects of a formula in a store are in it.
mutual
  unfolding IsIn addresses

  below : (s : Store) (t : Placed) (q : Ptr) → IsIn s t → 0 < count q (addresses t) → q < length s
  below s (leaf p ref l) q h k = elim (count-cons q p [] k) [
    | inl e ↦ subst (λ r. r < length s) e (at-lt s p (ap is_live h))
    | inr z ↦ absurd (omega arith)
  ]
  below s (disjunction p ref ts) q h k = elim (count-cons q p (all_addresses ts) k) [
    | inl e ↦ subst (λ r. r < length s) e (at-lt s p (ap is_live h.0))
    | inr z ↦ all_below s ts q h.1 z
  ]
  below s (conjunction p ref ts) q h k = elim (count-cons q p (all_addresses ts) k) [
    | inl e ↦ subst (λ r. r < length s) e (at-lt s p (ap is_live h.0))
    | inr z ↦ all_below s ts q h.1 z
  ]

  pub all_below :
      (s : Store) (ts : Parts) (q : Ptr)
      → AllIn s ts
      → 0 < count q (all_addresses ts)
      → q < length s
  all_below s end q h k = absurd (omega arith)
  all_below s (part t ts) q h k = elim (dec_lt 0 (count q (addresses t))) [
    | yes z ↦ below s t q h.0 z
    | no z ↦ all_below s ts q h.1 (omega (arith, count-append q (addresses t) (all_addresses ts)))
  ]

-- The store `s'` has a copy of `t` in new objects, with the number after those of `s` for its root;
-- the objects of `s` are what they were.
pub record CopyOf (s s' : Store) (t : Placed) : Type 0 where
  pub tree : Placed
  pub at_root : root tree ≡ length s
  pub present : IsIn s' tree
  pub formula : formula_of tree ≡ formula_of t
  pub top : Content
  pub single : at s' (length s) ≡ node 1 top
  pub fresh : (q : Ptr) → 0 < count q (addresses tree) → (length s ≤ q) × (q < length s')
  pub old : (q : Ptr) → q < length s → at s' q ≡ at s q
  pub grows : length s < length s'
  pub counted : HoldsNew s s'
  pub full : IsFull s s'

-- The same for the loop, which writes the copies to the slots of `ret` after `pre`.
pub record SlotsCopied (s s' : Store) (ret : Ptr) (k : Connective) (pre : List (Option Ptr))
    (ts : Parts) : Type 0 where
  pub parts : Parts
  pub present : AllIn s' parts
  pub formulas : formulas_of parts ≡ formulas_of ts
  pub filled : at s' ret ≡ node 1 (content k (pre ++ roots parts))
  pub fresh : (q : Ptr) → 0 < count q (all_addresses parts) → (length s ≤ q) × (q < length s')
  pub old : (q : Ptr) → q < length s → ret ≢ q → at s' q ≡ at s q
  pub grows : length s ≤ length s'
  pub counted : KeepsCounts s s'
  pub full : IsFull s s'

abbrev pub Copies : ℕ → Placed → Type 0
Copies fuel t =
    (s : Store)
    → IsIn s t
    → height t ≤ fuel
    → (s' : Store) × (copy fuel (root t) s ≡ done (length s, s')) × CopyOf s s' t

abbrev pub AllCopy : ℕ → Parts → Type 0
AllCopy fuel end = Unit
AllCopy fuel (part t ts) = Copies fuel t × AllCopy fuel ts

-- A new object at `r`, and the others behind it.
pub IsFull-cons :
    (s s₀ s' : Store) (r : Ptr)
    → length s ≡ r
    → length s₀ ≡ suc r
    → IsFilled (cell_slots (at s' r))
    → IsFull s₀ s'
    → IsFull s s'
IsFull-cons s s₀ s' r e e₀ h full q b = elim (ℕ_discrete r q) [
  | yes y ↦ subst (λ x. IsFilled (cell_slots (at s' x))) y h
  | no ne ↦ full q (behind ne)
]
  where
    behind : r ≢ q → length s₀ ≤ q
    behind ne = elim (dec_lt r q) [ yes z ↦ omega arith | no z ↦ absurd (ne (omega arith)) ]

-- Nothing stands behind a literal that was made last.
pub IsFull-literal : (s : Store) (l : Lit) → IsFull s (s ++ node 1 (literal l) ∷ [])
IsFull-literal s l =
    IsFull-cons s (s ++ node 1 (literal l) ∷ []) (s ++ node 1 (literal l) ∷ []) (length s) refl
      (omega (arith, length-append s (node 1 (literal l) ∷ [])))
      (subst (λ x. IsFilled (cell_slots x)) (sym (at-append_self s (node 1 (literal l)))) tt)
      (λ q b.
        subst (λ x. IsFilled (cell_slots x))
          (sym (get_or-ge (s ++ node 1 (literal l) ∷ []) q freed b)) tt)

-- The objects that a step made, and those that were made after it.
pub IsFull-trans :
    (s s₁ s' : Store)
    → IsFull s s₁
    → IsFull s₁ s'
    → ((q : Ptr) → length s ≤ q → q < length s₁ → at s' q ≡ at s₁ q)
    → IsFull s s'
IsFull-trans s s₁ s' one two same q b = elim (dec_lt q (length s₁)) [
  | yes z ↦ subst (λ x. IsFilled (cell_slots x)) (sym (same q b z)) (one q b)
  | no z ↦ two q (omega arith)
]

pub full_of_roots : (ts : Parts) → IsFilled (roots ts)
full_of_roots end = tt
full_of_roots (part t ts) = full_of_roots ts
