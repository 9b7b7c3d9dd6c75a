-- ===== src/BoolFormula/Store/Frame.antt =====
-- Formulas on a store keep standing there when other objects change.
use dorder.Prelude.{◌≤◌, ◌≡◌, ◌∙◌, List, [], arith}
use dorder.BoolFormula.Store.{Ptr, Store}
use dorder.BoolFormula.Store.Count.{count, at, count-append}
use dorder.BoolFormula.Store.Calls.{count_self}
use dorder.BoolFormula.Store.Placed.{
  Placed, leaf, disjunction, conjunction, Parts, end, part, addresses, all_addresses, IsIn, AllIn,
  Same,
}

-- No object is met twice.
abbrev pub Unshared : List Ptr → Type 0
Unshared ps = (q : Ptr) → count q ps ≤ 1

-- All objects but these are what they were.
abbrev pub KeepsOthers : Store → Store → List Ptr → Type 0
KeepsOthers s s' ps = (q : Ptr) → count q ps ≡ 0 → at s' q ≡ at s q

mutual
  unfolding IsIn addresses

  pub frame : (s s' : Store) (t : Placed) → Same s s' (addresses t) → IsIn s t → IsIn s' t
  frame s s' (leaf p ref l) same h = same p (omega (arith, count_self p [])) ∙ h
  frame s s' (disjunction p ref ts) same h = (
    same p (omega (arith, count_self p (all_addresses ts))) ∙ h.0,
    frame_all s s' ts (λ q k. same q (omega (arith, k))) h.1,
  )
  frame s s' (conjunction p ref ts) same h = (
    same p (omega (arith, count_self p (all_addresses ts))) ∙ h.0,
    frame_all s s' ts (λ q k. same q (omega (arith, k))) h.1,
  )

  pub frame_all :
      (s s' : Store) (ts : Parts) → Same s s' (all_addresses ts) → AllIn s ts → AllIn s' ts
  frame_all s s' end same h = tt
  frame_all s s' (part t ts) same h = (
    frame s s' t (λ q k. same q (omega (arith, count-append q (addresses t) (all_addresses ts))))
        h.0,
    frame_all s s' ts
        (λ q k. same q (omega (arith, count-append q (addresses t) (all_addresses ts)))) h.1,
  )
