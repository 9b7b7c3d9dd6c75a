-- ===== src/BoolFormula/Store/Copy.antt =====
-- `boolformula_copy` of boolformula.c on a store.
pub mod Slots
pub mod Made
pub mod Rounds
pub mod Copied
pub mod Read
use dorder.Prelude.{
  Bool, true, false, assert, ◌>>◌, ℕ, zero, suc, List, [], ◌∷◌, Option, some, none, Run, done,
  out_of_fuel, ◌>>=◌, length,
}
use dorder.BoolFormula.{Lit}
use dorder.BoolFormula.Store.{
  Ptr, Content, literal, disjunct, conjunct, Store, load, literal_new, disjunction_new,
  conjunction_new, read_slot, set_subformula, free,
}

-- The loop from the index `i` on, with `n` slots left.
unfoldable pub copy_slots :
    (Ptr → Store → Run (Ptr × Store)) → Ptr → Ptr → ℕ → ℕ → Store → Run Store
unfolding read_slot set_subformula free
copy_slots call f ret i zero s = done s
copy_slots call f ret i (suc n) s = do
  g ← read_slot f i s
  (temp, s₁) ← call g s
  s₂ ← set_subformula ret i temp s₁
  s₃ ← free (suc (length s₂)) temp s₂
  copy_slots call f ret (suc i) n s₃

abbrev pub same_type : Content → Content → Bool
same_type (literal l) (literal k) = true
same_type (disjunct v) (disjunct w) = true
same_type (conjunct v) (conjunct w) = true
same_type _ _ = false

-- assert (f->t == ret->t), and the end.
unfoldable pub compare_types : Ptr → Ptr → Store → Run (Ptr × Store)
unfolding load
compare_types f ret s = do
  (ref, c) ← load s f
  (ref', c') ← load s ret
  assert (same_type c c')
  done (ret, s)

-- `boolformula_copy`, with fuel for the depth of the calls.
unfoldable pub copy : ℕ → Ptr → Store → Run (Ptr × Store)
unfolding load copy_slots compare_types
copy zero f s = out_of_fuel
copy (suc fuel) f s = do
  (ref, c) ← load s f
  elim c [
    | literal l ↦ let (ret, s') = literal_new l s in compare_types f ret s'
    | disjunct v ↦ do
      let (ret, s₀) = disjunction_new (length v) s
      s' ← copy_slots (copy fuel) f ret 0 (length v) s₀
      compare_types f ret s'
    | conjunct v ↦ do
      let (ret, s₀) = conjunction_new (length v) s
      s' ← copy_slots (copy fuel) f ret 0 (length v) s₀
      compare_types f ret s'
  ]
