-- ===== src/Memory.antt =====
-- The functions of vector.c, bitvector.c, cdnfformula.c and cdnf.c that give memory back. Memory is the
-- list of the addresses of the blocks that are allocated; vectors have the addresses of their blocks.
pub mod Given
use dorder.Prelude.{
  ℕ, List, [], ◌∷◌, ◌++◌, Option, none, some, Run, done, failed, ◌>>=◌, ◌==◌, if◌then◌else◌,
}
use dorder.BoolFormula.{Lit}

abbrev pub Addr : Type 0
Addr = ℕ

abbrev pub Memory : Type 0
Memory = List Addr

-- free (p); a block that is not allocated ends the run.
unfoldable pub give_back : Addr → Memory → Run Memory
give_back p [] = failed
give_back p (q ∷ m) = do
  let rest = give_back p m
  if p == q then done m else (do m' ← rest; done (q ∷ m'))

-- The same of a pointer that may be NULL, where nothing happens.
abbrev pub give_back? : Option Addr → Memory → Run Memory
give_back? none m = done m
give_back? (some p) m = give_back p m

-- A `vector` at its address, with the address of its buffer and its elements.
pub record Block (A : Type 0) : Type 0 where
  pub self : Addr
  pub buffer : Option Addr
  pub items : List A

unfoldable pub vector_free : {A : Type 0} → Block A → Memory → Run Memory
unfolding give_back
vector_free v m = do m' ← give_back? v.buffer m; give_back v.self m'

-- A `bitvector`, of which only the blocks matter here.
pub record BitBlock : Type 0 where
  pub self : Addr
  pub buffer : Option Addr

unfoldable pub bitvector_free : BitBlock → Memory → Run Memory
unfolding give_back
bitvector_free v m = do m' ← give_back? v.buffer m; give_back v.self m'

-- A loop over the elements of a vector.
unfoldable pub for_items : {A : Type 0} → (A → Memory → Run Memory) → List A → Memory → Run Memory
for_items call [] m = done m
for_items call (x ∷ xs) m = do m' ← call x m; for_items call xs m'

unfoldable pub disjunction_free : Block (Block Lit) → Memory → Run Memory
unfolding for_items vector_free
disjunction_free disj m = do m' ← for_items vector_free disj.items m; vector_free disj m'

-- `cdnfformula_free`
unfoldable pub formula_free : Block (Block (Block Lit)) → Memory → Run Memory
unfolding for_items disjunction_free vector_free
formula_free f m = do m' ← for_items disjunction_free f.items m; vector_free f m'

-- A `basis` at its address.
pub record BasisBlock : Type 0 where
  pub self : Addr
  pub h : Block (Block Lit)
  pub t : Block BitBlock
  pub a : BitBlock

-- The body of the loop in `cleanup`.
unfoldable pub free_basis : BasisBlock → Memory → Run Memory
unfolding give_back vector_free bitvector_free disjunction_free for_items
free_basis b m = do
  m₁ ← disjunction_free b.h m
  m₂ ← bitvector_free b.a m₁
  m₃ ← for_items bitvector_free b.t.items m₂
  m₄ ← vector_free b.t m₃
  give_back b.self m₄

unfoldable pub cleanup : Block BasisBlock → Memory → Run Memory
unfolding for_items free_basis vector_free
cleanup bases m = do m' ← for_items free_basis bases.items m; vector_free bases m'
