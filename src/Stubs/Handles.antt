-- ===== src/Stubs/Handles.antt =====
-- The bindings of cdnfp_stubs.c that make, change, copy, transform and finalise formulas, on the store of
-- boolformula.c. An OCaml value that wraps a `boolformula_t *` is the pointer.
use dorder.Prelude.{
  ℕ, suc, Bool, true, false, Run, done, ◌>>=◌, ◌>>◌, assert, ltb, length, if◌then◌else◌,
}
use dorder.BoolFormula.{Lit}
use dorder.BoolFormula.Store.{
  Ptr, Content, literal, Store, slots, load, literal_new, disjunction_new, conjunction_new,
  disjunction_unit, conjunction_unit, retain, add, set_subformula, read_slot, free,
}
use dorder.BoolFormula.Store.Copy.{copy}
use dorder.BoolFormula.Store.Cnf.{to_cnf}

-- `Val_boolformula`, with the value that it allocates.
unfoldable pub val_boolformula : Ptr → Store → Run (Ptr × Store)
unfolding retain
val_boolformula f s = do s' ← retain f s; done (f, s')

-- `dealloc_boolformula`. The depth of the calls is at most the number of objects.
unfoldable pub dealloc_boolformula : Ptr → Store → Run Store
dealloc_boolformula f s = free (suc (length s)) f s

unfoldable pub ocaml_create_literal : Lit → Store → Run (Ptr × Store)
unfolding val_boolformula
ocaml_create_literal l s = let (f, s') = literal_new l s in val_boolformula f s'

unfoldable pub ocaml_create_disjunction : ℕ → Store → Run (Ptr × Store)
unfolding val_boolformula
ocaml_create_disjunction len s =
    let (f, s') = if ltb 0 len then disjunction_new len s else disjunction_unit s in
    val_boolformula f s'

unfoldable pub ocaml_create_conjunction : ℕ → Store → Run (Ptr × Store)
unfolding val_boolformula
ocaml_create_conjunction len s =
    let (f, s') = if ltb 0 len then conjunction_new len s else conjunction_unit s in
    val_boolformula f s'

-- The parent is wrapped once more.
unfoldable pub ocaml_add_boolformula : Ptr → Ptr → Store → Run (Ptr × Store)
unfolding add val_boolformula
ocaml_add_boolformula parent child s = do s' ← add parent child s; val_boolformula parent s'

unfoldable pub ocaml_set_boolformula : Ptr → ℕ → Ptr → Store → Run (Ptr × Store)
unfolding set_subformula val_boolformula
ocaml_set_boolformula parent i child s = do
  s' ← set_subformula parent i child s
  val_boolformula parent s'

abbrev pub is_composite : Content → Bool
is_composite (literal l) = false
is_composite _ = true

-- `ocaml_get_boolformula`
unfoldable pub wrap_subformula : Ptr → ℕ → Store → Run (Ptr × Store)
unfolding load read_slot val_boolformula
wrap_subformula f idx s = do
  (ref, c) ← load s f
  assert (is_composite c)
  assert (ltb idx (length (slots c)))
  g ← read_slot f idx s
  val_boolformula g s

-- The argument of the closure in `is_equivalent`: the wrapper takes the formula over.
unfoldable pub hand_over : Ptr → Store → Run (Ptr × Store)
unfolding val_boolformula
hand_over f s = do (v, s') ← val_boolformula f s; s'' ← free (suc (length s')) f s'; done (v, s'')

-- The new formula is wrapped. As many nested calls as there are objects are enough for a formula.
unfoldable pub ocaml_to_cnf : Ptr → ℕ → Store → Run (Ptr × Store)
unfolding to_cnf val_boolformula
ocaml_to_cnf f num_vars s = do (g, s') ← to_cnf (length s) f num_vars s; val_boolformula g s'

unfoldable pub ocaml_copy : Ptr → Store → Run (Ptr × Store)
unfolding copy val_boolformula
ocaml_copy f s = do (g, s') ← copy (length s) f s; val_boolformula g s'
