-- ===== src/BoolFormula/Store/Neg.antt =====
-- `boolformula_neg` of boolformula.c on a store, for a formula of which no two parts are one object.
use dorder.Prelude.{
  ℕ, zero, suc, ◌+◌, ◌≤◌, ◌<◌, ◌≡◌, ◌≢◌, refl, sym, ap, subst, ◌∙◌, List, [], ◌∷◌, ◌++◌, Option,
  some, arith, Run, done, length, set, get_elem?, length-append,
}
use native.Mathlib.Decide.{ℕ_discrete}
use mathlib.Core.List.{append_assoc}
use dorder.BoolFormula.Build
use dorder.BoolFormula.Store.{
  Ptr, Content, literal, disjunct, conjunct, node, Store, slots, for_slots, read_slot, negated, neg,
}
use dorder.BoolFormula.Store.Count.{count, at, is_live, count-append}
use dorder.BoolFormula.Store.Free.{load-done, at-set_self, at-set_ne}
use dorder.BoolFormula.Store.Calls.{count_self}
use dorder.BoolFormula.Store.Placed.{
  Placed, leaf, disjunction, conjunction, Parts, end, part, root, roots, addresses, all_addresses,
  height, heights, formula_of, IsIn, AllIn, opposite, opposites, roots-opposites,
  formula_of-opposite, addresses-opposite,
}
use dorder.BoolFormula.Store.Frame.{Unshared, KeepsOthers, frame, frame_all}

pub neg-done :
    (fuel : ℕ) (f : Ptr) (s s' : Store) (ref : ℕ) (c : Content)
    → at s f ≡ node ref c
    → for_slots (neg fuel) f 0 (length (slots c)) (set s f (node ref (negated c))) ≡ done s'
    → neg (suc fuel) f s ≡ done s'
unfolding neg
neg-done fuel f s s' ref c e h = rw (load-done s f e) h

pub for_slots_step :
    (call : Ptr → Store → Run Store) (f : Ptr) (pre rest : List (Option Ptr)) (g : Ptr) (ref : ℕ)
    (c : Content) (s s₁ s₂ : Store)
    → at s f ≡ node ref c
    → slots c ≡ pre ++ some g ∷ rest
    → call g s ≡ done s₁
    → for_slots call f (suc (length pre)) (length rest) s₁ ≡ done s₂
    → for_slots call f (length pre) (suc (length rest)) s ≡ done s₂
unfolding for_slots read_slot
for_slots_step call f pre rest g ref c s s₁ s₂ e q h k = rw (load-done s f e, q, nth pre, h) k
  where
    nth : (pre : List (Option Ptr)) → get_elem? (pre ++ some g ∷ rest) (length pre) ≡ some (some g)
    nth [] = refl
    nth (y ∷ pre) = nth pre

-- What a call of `boolformula_neg` does to an unshared formula.
abbrev Negates : ℕ → Placed → Type 0
Negates fuel t =
    (s : Store)
    → IsIn s t
    → Unshared (addresses t)
    → height t ≤ fuel
    → (s' : Store) × (neg fuel (root t) s ≡ done s')
      × IsIn s' (opposite t)
      × KeepsOthers s s' (addresses t)

abbrev AllNegate : ℕ → Parts → Type 0
AllNegate fuel end = Unit
AllNegate fuel (part t ts) = Negates fuel t × AllNegate fuel ts

-- The loop over the parts of an object `f` that is none of them.
loop-AllIn :
    (fuel : ℕ) (ts : Parts) (pre : List (Option Ptr)) (f : Ptr) (ref : ℕ) (c : Content) (s : Store)
    → AllNegate fuel ts
    → at s f ≡ node ref c
    → slots c ≡ pre ++ roots ts
    → count f (all_addresses ts) ≡ 0
    → Unshared (all_addresses ts)
    → heights ts ≤ fuel
    → AllIn s ts
    → (s' : Store) × (for_slots (neg fuel) f (length pre) (length (roots ts)) s ≡ done s')
      × AllIn s' (opposites ts)
      × KeepsOthers s s' (all_addresses ts)
unfolding IsIn addresses opposite height for_slots
loop-AllIn fuel end pre f ref c s ns e q out un b h = (s, refl, tt, λ q k. refl)
loop-AllIn fuel (part t ts) pre f ref c s ns e q out un b h =
    let split : (p : Ptr)
        → count p (addresses t ++ all_addresses ts)
          ≡ count p (addresses t) + count p (all_addresses ts) =
      (λ p. count-append p (addresses t) (all_addresses ts)) in
    let (s₁, r₁, in₁, kept₁) = ns.0 s h.0 (λ p. omega (arith, un p, split p)) (omega arith) in
    let (s₂, r₂, in₂, kept₂) =
      loop-AllIn fuel ts (pre ++ some (root t) ∷ []) f ref c s₁ ns.1
        (kept₁ f (omega (arith, out, split f)) ∙ e)
        (q ∙ sym (append_assoc pre (some (root t) ∷ []) (roots ts))) (omega (arith, out, split f))
        (λ p. omega (arith, un p, split p)) (omega arith)
        (frame_all s s₁ ts (λ p k. kept₁ p (omega (arith, un p, split p))) h.1) in
    let next : length (pre ++ some (root t) ∷ []) ≡ suc (length pre) =
      omega (arith, length-append pre (some (root t) ∷ [])) in
    (
      s₂,
      for_slots_step (neg fuel) f pre (roots ts) (root t) ref c s s₁ s₂ e q r₁
          (subst (λ k. for_slots (neg fuel) f k (length (roots ts)) s₁ ≡ done s₂) next r₂),
      (
        frame s₁ s₂ (opposite t)
            (λ p k.
              kept₂ p
                (omega (arith, un p, split p, subst (λ l. 0 < count p l) (addresses-opposite t) k)))
            in₁,
        in₂,
      ),
      λ p k. kept₂ p (omega (arith, k, split p)) ∙ kept₁ p (omega (arith, k, split p)),
    )

module _ (s : Store) (p : Ptr) (ref : ℕ) (c : Content) (here : at s p ≡ node ref c) (ps : List Ptr)
    (out : count p ps ≡ 0) where
  turned : Store
  turned = set s p (node ref (negated c))

  at-turned : at turned p ≡ node ref (negated c)
  unfolding turned
  at-turned = at-set_self s p (node ref (negated c)) (ap is_live here)

  turned_others : (q : Ptr) → p ≢ q → at turned q ≡ at s q
  unfolding turned
  turned_others q ne = at-set_ne s p q (node ref (negated c)) ne

  -- An object among `ps` is not the one that was turned.
  apart : (q : Ptr) → 0 < count q ps → p ≢ q
  apart q k e = zero_pos (subst (λ r. 0 < count r ps) (sym e) k)
    where
      zero_pos : 0 < count p ps → ⊥
      zero_pos h = omega (arith, out)

  keeps : (s' : Store) → KeepsOthers turned s' ps → KeepsOthers s s' (p ∷ ps)
  keeps s' kept q k = elim (ℕ_discrete p q) [
    | yes e ↦ absurd (omega (arith, subst (λ r. count r (p ∷ ps) ≡ 0) (sym e) k, count_self p ps))
    | no ne ↦ kept q (omega (arith, k)) ∙ turned_others q ne
  ]

pub end_slots : (fuel : ℕ) (f : Ptr) (i : ℕ) (s : Store) → for_slots (neg fuel) f i 0 s ≡ done s
unfolding for_slots
end_slots fuel f i s = refl

-- A connective whose parts `boolformula_neg` turns.
parts-AllIn :
    (fuel : ℕ) (ts : Parts) (p : Ptr) (ref : ℕ) (c : Content) (s : Store)
    → AllNegate fuel ts
    → slots c ≡ roots ts
    → slots (negated c) ≡ roots ts
    → at s p ≡ node ref c
    → AllIn s ts
    → Unshared (p ∷ all_addresses ts)
    → heights ts ≤ fuel
    → (s' : Store) × (neg (suc fuel) p s ≡ done s')
      × (at s' p ≡ node ref (negated c))
      × AllIn s' (opposites ts)
      × KeepsOthers s s' (p ∷ all_addresses ts)
unfolding turned
parts-AllIn fuel ts p ref c s ns e e' here h un b =
    let ps = all_addresses ts in
    let out : count p ps ≡ 0 = omega (arith, un p, count_self p ps) in
    let s₀ = turned s p ref c here ps out in
    let (s', r, ins, kept) =
      loop-AllIn fuel ts [] p ref (negated c) s₀ ns (at-turned s p ref c here ps out) e' out
        (λ q. omega (arith, un q)) b
        (frame_all s s₀ ts
          (λ q k. turned_others s p ref c here ps out q (apart s p ref c here ps out q k)) h) in
    (
      s',
      neg-done fuel p s s' ref c here (rw e r),
      kept p out ∙ at-turned s p ref c here ps out,
      ins,
      keeps s p ref c here ps out s' kept,
    )

mutual
  unfolding IsIn addresses opposite height turned

  negates : (fuel : ℕ) (t : Placed) → Negates fuel t
  negates zero (leaf p ref l) s h un b = absurd (omega arith)
  negates zero (disjunction p ref ts) s h un b = absurd (omega arith)
  negates zero (conjunction p ref ts) s h un b = absurd (omega arith)
  negates (suc fuel) (leaf p ref l) s h un b = (
    turned s p ref (literal l) h [] refl,
    neg-done fuel p s (turned s p ref (literal l) h [] refl) ref (literal l) h
        (end_slots fuel p 0 _),
    at-turned s p ref (literal l) h [] refl,
    keeps s p ref (literal l) h [] refl (turned s p ref (literal l) h [] refl) (λ q k. refl),
  )
  negates (suc fuel) (disjunction p ref ts) s h un b =
      let (s', r, top, ins, kept) =
        parts-AllIn fuel ts p ref (disjunct (roots ts)) s (all_negate fuel ts) refl refl h.0 h.1 un
          (omega arith) in
      (s', r, (top ∙ ap (λ v. node ref (conjunct v)) (sym (roots-opposites ts)), ins), kept)
  negates (suc fuel) (conjunction p ref ts) s h un b =
      let (s', r, top, ins, kept) =
        parts-AllIn fuel ts p ref (conjunct (roots ts)) s (all_negate fuel ts) refl refl h.0 h.1 un
          (omega arith) in
      (s', r, (top ∙ ap (λ v. node ref (disjunct v)) (sym (roots-opposites ts)), ins), kept)

  all_negate : (fuel : ℕ) (ts : Parts) → AllNegate fuel ts
  all_negate fuel end = tt
  all_negate fuel (part t ts) = (negates fuel t, all_negate fuel ts)

-- If no object is met twice in a formula, `boolformula_neg` ends, and the store then holds the
-- negation of the formula at the same addresses; all other objects are what they were. As many
-- nested calls as the formula is deep are enough.
pub neg-IsIn :
    (t : Placed) (s : Store) (fuel : ℕ)
    → IsIn s t
    → Unshared (addresses t)
    → height t ≤ fuel
    → (s' : Store) × (neg fuel (root t) s ≡ done s')
      × IsIn s' (opposite t)
      × (formula_of (opposite t) ≡ Build.neg (formula_of t))
      × KeepsOthers s s' (addresses t)
neg-IsIn t s fuel h un b =
    let (s', r, ins, kept) = negates fuel t s h un b in (s', r, ins, formula_of-opposite t, kept)
