-- ===== src/Memory/Given.antt =====
-- Which blocks the functions of Memory give back.
use dorder.Prelude.{
  ◌+◌, ◌<◌, ◌≡◌, refl, sym, List, [], ◌∷◌, ◌++◌, Option, none, some, Run, done, ◌>>=◌, arith,
  ==_refl, ne→==,
}
use native.Mathlib.Decide.{ℕ_discrete}
use dorder.BoolFormula.{Lit}
use dorder.BoolFormula.Store.Count.{count, count-append}
use dorder.BoolFormula.Store.Calls.{count_self, count_ne}
use dorder.Memory.{
  Addr, Memory, give_back, give_back?, Block, vector_free, BitBlock, bitvector_free, for_items,
  disjunction_free, formula_free, BasisBlock, free_basis, cleanup,
}

-- The blocks of each structure.
abbrev pub optional : Option Addr → List Addr
optional none = []
optional (some p) = p ∷ []

abbrev pub vector_blocks : {A : Type 0} → Block A → List Addr
vector_blocks v = optional v.buffer ++ v.self ∷ []

abbrev pub bitvector_blocks : BitBlock → List Addr
bitvector_blocks v = optional v.buffer ++ v.self ∷ []

abbrev pub each_blocks : {A : Type 0} → (A → List Addr) → List A → List Addr
each_blocks blocks [] = []
each_blocks blocks (x ∷ xs) = blocks x ++ each_blocks blocks xs

abbrev pub disjunction_blocks : Block (Block Lit) → List Addr
disjunction_blocks d = each_blocks vector_blocks d.items ++ vector_blocks d

abbrev pub formula_blocks : Block (Block (Block Lit)) → List Addr
formula_blocks f = each_blocks disjunction_blocks f.items ++ vector_blocks f

abbrev pub basis_blocks : BasisBlock → List Addr
basis_blocks b =
    disjunction_blocks b.h
    ++ (bitvector_blocks b.a
        ++ (each_blocks bitvector_blocks b.t.items ++ (vector_blocks b.t ++ b.self ∷ [])))

abbrev pub bases_blocks : Block BasisBlock → List Addr
bases_blocks bases = each_blocks basis_blocks bases.items ++ vector_blocks bases

-- The memory is made of some blocks and a rest, in any order.
abbrev pub Holds : Memory → List Addr → List Addr → Type 0
Holds m blocks rest = (p : Addr) → count p m ≡ count p blocks + count p rest

-- The function gives back exactly these blocks.
abbrev pub GivesBack : (Memory → Run Memory) → List Addr → Type 0
GivesBack free blocks =
    (m : Memory) (rest : List Addr)
    → Holds m blocks rest
    → (m' : Memory) × (free m ≡ done m') × ((p : Addr) → count p m' ≡ count p rest)

give_back-count :
    (p : Addr) (m : Memory)
    → 0 < count p m
    → (m' : Memory) × (give_back p m ≡ done m')
      × ((q : Addr) → count q m ≡ count q (p ∷ []) + count q m')
unfolding give_back
give_back-count p [] h = absurd (omega arith)
give_back-count p (q ∷ m) h = elim (ℕ_discrete p q) [
  | yes e ↦ (m, rw (sym e, ==_refl p) refl, λ r. rw (← e) (omega arith))
  | no ne ↦
      let (m', e, f) = give_back-count p m (omega (arith, count_ne p q m ne)) in
      (q ∷ m', rw (ne→== p q ne, e) refl, λ r. omega (arith, f r))
]

give_back-GivesBack : (p : Addr) → GivesBack (give_back p) (p ∷ [])
give_back-GivesBack p m rest h =
    let (m', e, f) = give_back-count p m (omega (arith, h p, count_self p [])) in
    (m', e, λ q. omega (arith, h q, f q))

give_back?-GivesBack : (p : Option Addr) → GivesBack (give_back? p) (optional p)
give_back?-GivesBack none m rest h = (m, refl, λ q. omega (arith, h q))
give_back?-GivesBack (some p) m rest h = give_back-GivesBack p m rest h

-- One function after another.
then-GivesBack :
    (f g : Memory → Run Memory) (xs ys : List Addr)
    → GivesBack f xs
    → GivesBack g ys
    → GivesBack (λ m. f m >>= g) (xs ++ ys)
then-GivesBack f g xs ys a b m rest h =
    let (m₁, e₁, h₁) =
      a m (ys ++ rest) (λ q. omega (arith, h q, count-append q xs ys, count-append q ys rest)) in
    let (m₂, e₂, h₂) = b m₁ rest (λ q. omega (arith, h₁ q, count-append q ys rest)) in
    (m₂, rw (e₁, e₂) refl, h₂)

vector_free-GivesBack : {A : Type 0} (v : Block A) → GivesBack (vector_free v) (vector_blocks v)
unfolding vector_free
vector_free-GivesBack v =
    then-GivesBack (give_back? v.buffer) (give_back v.self) (optional v.buffer) (v.self ∷ [])
      (give_back?-GivesBack v.buffer) (give_back-GivesBack v.self)

bitvector_free-GivesBack : (v : BitBlock) → GivesBack (bitvector_free v) (bitvector_blocks v)
unfolding bitvector_free
bitvector_free-GivesBack v =
    then-GivesBack (give_back? v.buffer) (give_back v.self) (optional v.buffer) (v.self ∷ [])
      (give_back?-GivesBack v.buffer) (give_back-GivesBack v.self)

for_items-GivesBack :
    {A : Type 0} (call : A → Memory → Run Memory) (blocks : A → List Addr)
    → ((x : A) → GivesBack (call x) (blocks x))
    → (xs : List A) → GivesBack (for_items call xs) (each_blocks blocks xs)
unfolding for_items
for_items-GivesBack call blocks calls [] m rest h = (m, refl, λ q. omega (arith, h q))
for_items-GivesBack call blocks calls (x ∷ xs) m rest h =
    then-GivesBack (call x) (for_items call xs) (blocks x) (each_blocks blocks xs) (calls x)
      (for_items-GivesBack call blocks calls xs) m rest h

disjunction_free-GivesBack :
    (d : Block (Block Lit)) → GivesBack (disjunction_free d) (disjunction_blocks d)
unfolding disjunction_free
disjunction_free-GivesBack d =
    then-GivesBack (for_items vector_free d.items) (vector_free d)
      (each_blocks vector_blocks d.items) (vector_blocks d)
      (for_items-GivesBack vector_free vector_blocks vector_free-GivesBack d.items)
      (vector_free-GivesBack d)

free_basis-GivesBack : (b : BasisBlock) → GivesBack (free_basis b) (basis_blocks b)
unfolding free_basis
free_basis-GivesBack b =
    then-GivesBack (disjunction_free b.h) _ (disjunction_blocks b.h) _
      (disjunction_free-GivesBack b.h)
      (then-GivesBack (bitvector_free b.a) _ (bitvector_blocks b.a) _ (bitvector_free-GivesBack b.a)
        (then-GivesBack (for_items bitvector_free b.t.items) _
          (each_blocks bitvector_blocks b.t.items) _
          (for_items-GivesBack bitvector_free bitvector_blocks bitvector_free-GivesBack b.t.items)
          (then-GivesBack (vector_free b.t) (give_back b.self) (vector_blocks b.t) (b.self ∷ [])
            (vector_free-GivesBack b.t) (give_back-GivesBack b.self))))

-- If the memory is made of the blocks of a formula and a rest, in any order, `cdnfformula_free` ends
-- without freeing a block that is not allocated, and leaves the rest.
formula_free-GivesBack :
    (f : Block (Block (Block Lit))) (m : Memory) (rest : List Addr)
    → Holds m (formula_blocks f) rest
    → (m' : Memory) × (formula_free f m ≡ done m') × ((p : Addr) → count p m' ≡ count p rest)
unfolding formula_free
formula_free-GivesBack f =
    then-GivesBack (for_items disjunction_free f.items) (vector_free f)
      (each_blocks disjunction_blocks f.items) (vector_blocks f)
      (for_items-GivesBack disjunction_free disjunction_blocks disjunction_free-GivesBack f.items)
      (vector_free-GivesBack f)

-- If the memory is made of the blocks of the bases and a rest, in any order, `cleanup` ends without
-- freeing a block that is not allocated, and leaves the rest: each block of the bases, of their
-- points, supports, disjunctions and monomials is freed once.
pub cleanup-GivesBack :
    (bases : Block BasisBlock) (m : Memory) (rest : List Addr)
    → Holds m (bases_blocks bases) rest
    → (m' : Memory) × (cleanup bases m ≡ done m') × ((p : Addr) → count p m' ≡ count p rest)
unfolding cleanup
cleanup-GivesBack bases =
    then-GivesBack (for_items free_basis bases.items) (vector_free bases)
      (each_blocks basis_blocks bases.items) (vector_blocks bases)
      (for_items-GivesBack free_basis basis_blocks free_basis-GivesBack bases.items)
      (vector_free-GivesBack bases)
