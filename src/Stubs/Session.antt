-- ===== src/Stubs/Session.antt =====
-- The life of wrapped formulas: OCaml code that calls the bindings of cdnfp_stubs.c in any order, and
-- a collector that finalises wrappers.
pub mod Counts
pub mod Apart
pub mod Reached
pub mod Private
use dorder.Prelude.{
  ℕ, zero, suc, ◌+◌, ◌≤◌, ◌<◌, ◌≡◌, refl, sym, ap, ◌∙◌, subst, Bool, true, false, List, [], ◌∷◌,
  ◌++◌, Option, none, some, Run, done, failed, ◌>>=◌, >>=-eq-done, assert, arith, ltb, ltb→lt,
  length, get_or, set, replicate, inl, inr, Bool-cases, if◌then◌else◌, checked, get_elem?, ◌>>◌,
}
use dorder.BoolFormula.{Lit, BoolFormula}
use dorder.BoolFormula.Store.Reads.{view, Reads}
use dorder.BoolFormula.Store.{
  Ptr, Content, literal, disjunct, conjunct, Cell, freed, node, Store, slots, load, malloc, retain,
  append_slot, write_slot, add, set_subformula, read_slot,
}
use dorder.BoolFormula.Store.Count.{
  IsCounted, pointers, one_if, count, cell_slots, cell_ref, is_live, cell_count, in_refs, at,
  count-append, pointers-append, at-lt,
}
use dorder.BoolFormula.Store.Free.{IsFilled, IsAccounted}
use dorder.BoolFormula.Store.Safe.{free-IsAccounted}
use dorder.BoolFormula.Store.Calls.{count_self}
use dorder.BoolFormula.Store.Changes.{
  live_of_ref, node_of, load-at, malloc-IsCounted, forget-IsCounted, retain-IsCounted,
  store-IsCounted,
}
use dorder.Stubs.Handles.{
  val_boolformula, dealloc_boolformula, ocaml_create_literal, ocaml_create_disjunction,
  ocaml_create_conjunction, ocaml_add_boolformula, ocaml_set_boolformula, wrap_subformula,
  ocaml_copy, ocaml_to_cnf,
}

-- The store, and the wrappers that OCaml holds.
pub record Session : Type 0 where
  pub store : Store
  pub held : List Ptr

abbrev pub IsHeld : Session → Ptr → Type 0
IsHeld s p = 0 < count p s.held

-- Every slot of every object was written to.
abbrev pub AllFilled : Store → Type 0
AllFilled s = (p : Ptr) → IsFilled (cell_slots (at s p))

-- A call of a binding that returns, for `copy` and `to_cnf` on an object that stands for a formula, or
-- the collector, which finalises while every slot is written.
pub data Step (s t : Session) : Type 0 where
  create_literal :
      (l : Lit) (p : Ptr)
      → ocaml_create_literal l s.store ≡ done (p, t.store)
      → t.held ≡ p ∷ s.held
      → Step s t
  create_disjunction :
      (n : ℕ) (p : Ptr)
      → ocaml_create_disjunction n s.store ≡ done (p, t.store)
      → t.held ≡ p ∷ s.held
      → Step s t
  create_conjunction :
      (n : ℕ) (p : Ptr)
      → ocaml_create_conjunction n s.store ≡ done (p, t.store)
      → t.held ≡ p ∷ s.held
      → Step s t
  add_boolformula :
      (f g p : Ptr)
      → IsHeld s f
      → IsHeld s g
      → ocaml_add_boolformula f g s.store ≡ done (p, t.store)
      → t.held ≡ p ∷ s.held
      → Step s t
  set_boolformula :
      (f : Ptr) (i : ℕ) (g p : Ptr)
      → IsHeld s f
      → IsHeld s g
      → ocaml_set_boolformula f i g s.store ≡ done (p, t.store)
      → t.held ≡ p ∷ s.held
      → Step s t
  get_boolformula :
      (f : Ptr) (i : ℕ) (p : Ptr)
      → IsHeld s f
      → wrap_subformula f i s.store ≡ done (p, t.store)
      → t.held ≡ p ∷ s.held
      → Step s t
  copy :
      (f : Ptr) (g : BoolFormula) (p : Ptr)
      → IsHeld s f
      → Reads (view s.store) f g
      → ocaml_copy f s.store ≡ done (p, t.store)
      → t.held ≡ p ∷ s.held
      → Step s t
  to_cnf :
      (f : Ptr) (g : BoolFormula) (num_vars : ℕ) (p : Ptr)
      → IsHeld s f
      → Reads (view s.store) f g
      → ocaml_to_cnf f num_vars s.store ≡ done (p, t.store)
      → t.held ≡ p ∷ s.held
      → Step s t
  finalise :
      (p : Ptr)
      → AllFilled s.store
      → ((q : Ptr) → count q s.held ≡ count q (p ∷ t.held))
      → dealloc_boolformula p s.store ≡ done t.store
      → Step s t

pub data Reach (s : Session) : Session → Type 0 where
  here : Reach s s
  next : {t u : Session} → Reach s t → Step t u → Reach s u

-- The counts are right, and at least the references of `lost` are lost.
abbrev pub IsBalanced : (Ptr → ℕ) → Session → Type 0
IsBalanced lost s =
    (lost' : Ptr → ℕ) × ((p : Ptr) → lost p ≤ lost' p) × IsCounted lost' s.store s.held
