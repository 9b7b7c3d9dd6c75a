-- ===== src/BoolFormula/Store.antt =====
-- external/cdnfcore/boolformula.c on a store: objects with reference counts, which may share their
-- parts. A pointer is the number of its object; `malloc` takes the next number.
pub mod Count
pub mod Free
pub mod Calls
pub mod Safe
pub mod Changes
pub mod Counted
pub mod Placed
pub mod Frame
pub mod Neg
pub mod Negated
pub mod Shared
pub mod Reads
pub mod Depth
pub mod Copy
pub mod Cnf
use dorder.Prelude.{
  ℕ, zero, suc, ◌+◌, ◌-◌, ℤ, negate, Bool, List, [], ◌∷◌, ◌++◌, Option, none, some, Run, done,
  failed, out_of_fuel, ◌>>=◌, ◌>>◌, assert, checked, ltb, length, get_elem?, set, replicate, true,
  false,
}
use dorder.BoolFormula.{Lit}

abbrev pub Ptr : Type 0
Ptr = ℕ

-- The type tag with the union `data`. A slot of a new vector that nothing was written to is `none`.
pub data Content : Type 0 where
  literal : Lit → Content
  disjunct conjunct : List (Option Ptr) → Content

-- A `boolformula_t` with its reference count, or one that was freed.
pub data Cell : Type 0 where
  freed : Cell
  node : ℕ → Content → Cell

abbrev pub Store : Type 0
Store = List Cell

-- The vector of an object; for a literal there is none.
abbrev pub slots : Content → List (Option Ptr)
slots (literal l) = []
slots (disjunct v) = v
slots (conjunct v) = v

abbrev pub alive : Cell → Run (ℕ × Content)
alive freed = failed
alive (node ref c) = done (ref, c)

-- Reading an object; one that was freed is out of bounds.
unfoldable pub load : Store → Ptr → Run (ℕ × Content)
load s p = checked (get_elem? s p) >>= alive

abbrev pub malloc : Content → Store → Ptr × Store
malloc c s = (length s, s ++ node 1 c ∷ [])

abbrev pub literal_new : Lit → Store → Ptr × Store
literal_new l s = malloc (literal l) s

abbrev pub disjunction_new : ℕ → Store → Ptr × Store
disjunction_new n s = malloc (disjunct (replicate n none)) s

abbrev pub conjunction_new : ℕ → Store → Ptr × Store
conjunction_new n s = malloc (conjunct (replicate n none)) s

abbrev pub disjunction_unit : Store → Ptr × Store
disjunction_unit s = malloc (disjunct []) s

abbrev pub conjunction_unit : Store → Ptr × Store
conjunction_unit s = malloc (conjunct []) s

-- ref++
unfoldable pub retain : Ptr → Store → Run Store
unfolding load
retain g s = do (ref, c) ← load s g; done (set s g (node (ref + 1) c))

abbrev pub append_slot : Content → Ptr → Run Content
append_slot (literal l) g = failed
append_slot (disjunct v) g = done (disjunct (v ++ some g ∷ []))
append_slot (conjunct v) g = done (conjunct (v ++ some g ∷ []))

abbrev pub write_slot : Content → ℕ → Ptr → Run Content
write_slot (literal l) i g = failed
write_slot (disjunct v) i g = assert (ltb i (length v)) >> done (disjunct (set v i (some g)))
write_slot (conjunct v) i g = assert (ltb i (length v)) >> done (conjunct (set v i (some g)))

unfoldable pub add : Ptr → Ptr → Store → Run Store
unfolding load retain
add f g s = do (ref, c) ← load s f; c' ← append_slot c g; retain g (set s f (node ref c'))

-- What stood in the slot keeps its reference count.
unfoldable pub set_subformula : Ptr → ℕ → Ptr → Store → Run Store
unfolding load retain
set_subformula f i g s = do
  (ref, c) ← load s f
  c' ← write_slot c i g
  retain g (set s f (node ref c'))

-- free (f)
unfoldable pub release : Ptr → Store → Run Store
unfolding load
release f s = do (ref, c) ← load s f; done (set s f freed)

-- `f->d.v` at an index
unfoldable pub read_slot : Ptr → ℕ → Store → Run Ptr
unfolding load
read_slot f i s = do (ref, c) ← load s f; slot ← checked (get_elem? (slots c) i); checked slot

-- A loop over the slots from the index `i` on, `n` of which are left, that calls a function for
-- each subformula.
unfoldable pub for_slots : (Ptr → Store → Run Store) → Ptr → ℕ → ℕ → Store → Run Store
unfolding read_slot
for_slots call f i zero s = done s
for_slots call f i (suc n) s = do g ← read_slot f i s; s' ← call g s; for_slots call f (suc i) n s'

-- `boolformula_free`, with fuel for the depth of the calls.
unfoldable pub free : ℕ → Ptr → Store → Run Store
unfolding load for_slots release
free zero f s = out_of_fuel
free (suc fuel) f s = do
  (ref, c) ← load s f
  elim (ltb 1 ref) [
    | true ↦ done (set s f (node (ref - 1) c))
    | false ↦ do s' ← for_slots (free fuel) f 0 (length (slots c)) s; release f s'
  ]

-- The first half of `boolformula_neg`: the other connective, or the other sign.
abbrev pub negated : Content → Content
negated (literal l) = literal (negate l)
negated (disjunct v) = conjunct v
negated (conjunct v) = disjunct v

-- `boolformula_neg`, with fuel for the depth of the calls.
unfoldable pub neg : ℕ → Ptr → Store → Run Store
unfolding load for_slots
neg zero f s = out_of_fuel
neg (suc fuel) f s = do
  (ref, c) ← load s f
  for_slots (neg fuel) f 0 (length (slots c)) (set s f (node ref (negated c)))
