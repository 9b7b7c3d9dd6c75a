-- ===== src/Examples/Sharing.antt =====
-- boolformula.c and the wrappers of cdnfp_stubs.c on small stores: a disjunction with a literal in both
-- slots, and a session that makes, adds to and finalises formulas.
use dorder.Prelude.{
  ℕ, zero, suc, ◌≡◌, refl, true, not, List, [], ◌∷◌, ◌++◌, Option, some, pos, negsuc, done, arith,
}
use dorder.BoolFormula.{BoolFormula, nil, cons, num_of_var}
use dorder.BoolFormula.Build
use dorder.BoolFormula.Cnf as Tree
use dorder.BoolFormula.Cnf.Correct.{IsCnfOf}
use dorder.BoolFormula.Store.{
  Ptr, literal, disjunct, conjunct, freed, node, Store, free, neg, load, retain, add, read_slot,
  for_slots, release,
}
use dorder.BoolFormula.Store.Count.{IsCounted, at, is_live}
use dorder.BoolFormula.Store.Free.{IsAccounted}
use dorder.BoolFormula.Store.Safe.{free-IsAccounted}
use dorder.BoolFormula.Store.Placed.{
  Placed, leaf, disjunction, end, part, addresses, formula_of, opposite, IsIn, height, root,
}
use dorder.BoolFormula.Store.Frame.{Unshared, KeepsOthers}
use dorder.BoolFormula.Store.Neg.{neg-IsIn}
use dorder.BoolFormula.Store.Negated.{neg-Negated}
use dorder.BoolFormula.Meaning.{Assignment, eval}
use dorder.BoolFormula.Store.Copy.{copy}
use dorder.BoolFormula.Store.Copy.Made.{CopyOf}
use dorder.BoolFormula.Store.Copy.Copied.{copy-CopyOf}
use dorder.BoolFormula.Store.Reads.{Reads, depth, NewFormula}
use dorder.BoolFormula.Store.Cnf.{to_cnf}
use dorder.BoolFormula.Store.Cnf.Result.{to_cnf-NewFormula}
use dorder.Stubs.Handles.{
  val_boolformula, dealloc_boolformula, ocaml_create_literal, ocaml_create_disjunction,
  ocaml_add_boolformula, wrap_subformula, ocaml_to_cnf,
}
use dorder.Stubs.Transformed.{Wraps, ocaml_to_cnf-Wraps}
use dorder.Stubs.Session.{
  Session, Step, create_literal, create_disjunction, add_boolformula, get_boolformula, finalise,
  Reach, here, next, IsBalanced, AllFilled,
}
use dorder.Stubs.Session.Reached.{Reach-IsBalanced, Reach-finalise, Reach-ocaml_create_literal}

abbrev none_lost : Ptr → ℕ
none_lost p = 0

-- x₁ ∨ x₁ with one object for both literals.
abbrev shared : Store
shared = node 1 (disjunct (some 1 ∷ some 1 ∷ [])) ∷ node 2 (literal (pos 1)) ∷ []

shared-IsCounted : IsCounted none_lost shared (0 ∷ [])
shared-IsCounted zero = refl
shared-IsCounted (suc zero) = refl
shared-IsCounted (suc (suc p)) = grind arith

shared-IsFilled : AllFilled shared
shared-IsFilled zero = tt
shared-IsFilled (suc zero) = tt
shared-IsFilled (suc (suc p)) = tt

free-IsAccounted_example : (s' : Store) × (free 3 0 shared ≡ done s') × IsAccounted none_lost s' []
free-IsAccounted_example =
    free-IsAccounted none_lost shared 0 [] 3
      (record { counted = shared-IsCounted; filled = shared-IsFilled }) (omega arith)

free-shared : free 3 0 shared ≡ done (freed ∷ freed ∷ [])
unfolding free for_slots read_slot load release
free-shared = refl

abbrev shared_tree : Placed
shared_tree = disjunction 0 1 (part (leaf 1 2 (pos 1)) (part (leaf 1 2 (pos 1)) end))

copy-CopyOf_example : (s' : Store) × (copy 2 0 shared ≡ done (2, s')) × CopyOf shared s' shared_tree
unfolding IsIn height
copy-CopyOf_example = copy-CopyOf shared_tree shared 2 (refl, (refl, (refl, tt))) (omega arith)

-- The copy has an object for each slot.
copy-shared :
    copy 2 0 shared
    ≡ done (
      2,
      shared
          ++ node 1 (disjunct (some 3 ∷ some 4 ∷ []))
            ∷ node 1 (literal (pos 1))
            ∷ node 1 (literal (pos 1))
            ∷ [],
    )
unfolding copy
copy-shared = refl

-- Of the disjunction with the shared literal: x₂ ∧ (¬x₂ ∨ x₁ ∨ x₁).
abbrev shared_formula : BoolFormula
shared_formula =
    BoolFormula.disjunct
      (cons (BoolFormula.literal (pos 1)) (cons (BoolFormula.literal (pos 1)) nil))

to_cnf-NewFormula_example :
    (s' : Store) × (g : BoolFormula) × (to_cnf 2 0 1 shared ≡ done (2, s'))
    × (Tree.to_cnf shared_formula 1 ≡ done g)
    × NewFormula shared s' g
unfolding Reads depth
to_cnf-NewFormula_example =
    to_cnf-NewFormula shared 0 shared_formula 2 1 (some 1 ∷ some 1 ∷ [], refl, (refl, (refl, tt)))
      (omega arith)

ocaml_to_cnf-Wraps_example :
    (s' : Store) × (g : BoolFormula) × (ocaml_to_cnf 0 1 shared ≡ done (2, s'))
    × Wraps shared s' g
    × IsCnfOf shared_formula 1 g
unfolding Reads num_of_var
ocaml_to_cnf-Wraps_example =
    ocaml_to_cnf-Wraps shared 0 shared_formula 1 (some 1 ∷ some 1 ∷ [], refl, (refl, (refl, tt)))
      (omega arith)

to_cnf-shared :
    to_cnf 2 0 1 shared
    ≡ done (
      2,
      shared
          ++ node 1 (conjunct (some 3 ∷ some 5 ∷ []))
            ∷ node 1 (literal (pos 2))
            ∷ node 1 (literal (negsuc 1))
            ∷ node 1 (disjunct (some 4 ∷ some 6 ∷ some 7 ∷ []))
            ∷ node 1 (literal (pos 1))
            ∷ node 1 (literal (pos 1))
            ∷ [],
    )
unfolding to_cnf
to_cnf-shared = refl

-- x₁ ∨ ¬x₂
abbrev tree : Placed
tree = disjunction 0 1 (part (leaf 1 1 (pos 1)) (part (leaf 2 1 (negsuc 1)) end))

abbrev tree_store : Store
tree_store =
    node 1 (disjunct (some 1 ∷ some 2 ∷ []))
    ∷ node 1 (literal (pos 1))
    ∷ node 1 (literal (negsuc 1))
    ∷ []

tree-Unshared : Unshared (0 ∷ 1 ∷ 2 ∷ [])
tree-Unshared zero = grind arith
tree-Unshared (suc zero) = grind arith
tree-Unshared (suc (suc zero)) = grind arith
tree-Unshared (suc (suc (suc q))) = grind arith

neg-IsIn_example :
    (s' : Store) × (neg 2 0 tree_store ≡ done s')
    × IsIn s' (opposite tree)
    × (formula_of (opposite tree) ≡ Build.neg (formula_of tree))
    × KeepsOthers tree_store s' (addresses tree)
unfolding IsIn addresses height
neg-IsIn_example = neg-IsIn tree tree_store 2 (refl, (refl, (refl, tt))) tree-Unshared (omega arith)

neg-Negated_example :
    (s' : Store) × (t' : Placed) × (neg 2 0 tree_store ≡ done s')
    × (root t' ≡ 0)
    × (addresses t' ≡ addresses tree)
    × IsIn s' t'
    × ((ρ : Assignment) → eval ρ (formula_of t') ≡ not (eval ρ (formula_of tree)))
    × KeepsOthers tree_store s' (addresses tree)
unfolding IsIn addresses height formula_of Build.HasLiterals
neg-Negated_example =
    neg-Negated tree tree_store 2 (refl, (refl, (refl, tt))) tree-Unshared
      (omega arith, (omega arith, tt)) (omega arith)

-- OCaml makes the literal x₁ and an empty disjunction, adds one to the other, reads the part, and the
-- collector finalises the wrapper of the disjunction that `add_boolformula` made.
abbrev session : ℕ → ℕ → List (Option Ptr) → List Ptr → Session
session refs parent_refs v held = record {
  store = node refs (literal (pos 1)) ∷ node parent_refs (disjunct v) ∷ [];
  held = held;
}

abbrev start : Session
start = record { store = []; held = [] }

abbrev made : Session
made = record { store = node 2 (literal (pos 1)) ∷ []; held = 0 ∷ [] }

abbrev reached : Session
reached = session 4 3 (some 0 ∷ []) (0 ∷ 1 ∷ 1 ∷ 0 ∷ [])

Step-made : Step start made
unfolding ocaml_create_literal val_boolformula retain load
Step-made = create_literal (pos 1) 0 refl refl

continue-Reach : {s : Session} → Reach s made → Reach s reached
unfolding ocaml_create_disjunction ocaml_add_boolformula wrap_subformula val_boolformula add retain
    load read_slot
continue-Reach r =
    next {t = session 3 3 (some 0 ∷ []) (1 ∷ 1 ∷ 0 ∷ [])}
      (next {t = session 2 2 [] (1 ∷ 0 ∷ [])} (next r (create_disjunction 0 1 refl refl))
        (add_boolformula 1 0 1 (omega arith) (omega arith) refl refl))
      (get_boolformula 1 0 0 (omega arith) refl refl)

start-Reach : Reach start reached
start-Reach = continue-Reach (next here Step-made)

start-IsCounted : IsCounted none_lost [] []
start-IsCounted p = refl

Reach-IsBalanced_example : IsBalanced none_lost reached
Reach-IsBalanced_example = Reach-IsBalanced none_lost start reached start-IsCounted start-Reach

reached-IsFilled : AllFilled reached.store
reached-IsFilled zero = tt
reached-IsFilled (suc zero) = tt
reached-IsFilled (suc (suc p)) = tt

Reach-finalise_example :
    (store : Store) × (dealloc_boolformula 0 reached.store ≡ done store)
    × Step reached (record { store = store; held = 1 ∷ 1 ∷ 0 ∷ [] })
Reach-finalise_example =
    Reach-finalise none_lost start reached 0 (1 ∷ 1 ∷ 0 ∷ []) start-IsCounted start-Reach
      reached-IsFilled refl

-- The only wrapper of the literal is finalised.
abbrev dropped : Session
dropped = record { store = node 1 (literal (pos 1)) ∷ []; held = [] }

made-AllFilled : AllFilled made.store
made-AllFilled zero = tt
made-AllFilled (suc p) = tt

dropped-Reach : Reach made dropped
unfolding dealloc_boolformula free load
dropped-Reach = next here (finalise 0 made-AllFilled (λ q. refl) refl)

Reach-ocaml_create_literal_example : is_live (at dropped.store 0) ≡ true
unfolding ocaml_create_literal val_boolformula retain load
Reach-ocaml_create_literal_example =
    Reach-ocaml_create_literal none_lost start made dropped (pos 1) 0 start-IsCounted refl refl
      dropped-Reach
