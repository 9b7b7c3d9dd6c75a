-- ===== src/BoolFormula/Store/Count.antt =====
-- How often the slots of a store, and a list of pointers, hold a pointer.
use dorder.Prelude.{
  ℕ, zero, suc, ◌+◌, ◌≤◌, ◌<◌, ◌≡◌, refl, ap, Bool, true, false, List, [], ◌∷◌, ◌++◌, Option, none,
  some, arith, ◌==◌, length, get_or, set, replicate,
}
use dorder.BoolFormula.Store.{Ptr, Cell, freed, node, Store, slots}

-- The pointers that are written in a vector.
abbrev pub pointers : List (Option Ptr) → List Ptr
pointers [] = []
pointers (none ∷ v) = pointers v
pointers (some p ∷ v) = p ∷ pointers v

abbrev pub one_if : Bool → ℕ
one_if true = 1
one_if false = 0

abbrev pub count : Ptr → List Ptr → ℕ
count p [] = 0
count p (q ∷ qs) = one_if (p == q) + count p qs

abbrev pub cell_slots : Cell → List (Option Ptr)
cell_slots freed = []
cell_slots (node ref c) = slots c

abbrev pub cell_ref : Cell → ℕ
cell_ref freed = 0
cell_ref (node ref c) = ref

abbrev pub is_live : Cell → Bool
is_live freed = false
is_live (node ref c) = true

-- The slots of a cell that hold `p`.
abbrev pub cell_count : Ptr → Cell → ℕ
cell_count p c = count p (pointers (cell_slots c))

-- The slots of all cells that hold `p`.
abbrev pub in_refs : Ptr → Store → ℕ
in_refs p [] = 0
in_refs p (c ∷ s) = cell_count p c + in_refs p s

abbrev pub live_count : Store → ℕ
live_count [] = 0
live_count (c ∷ s) = one_if (is_live c) + live_count s

abbrev pub at : Store → Ptr → Cell
at s p = get_or s p freed

-- The reference counts are right: each is the number of the slots that hold the pointer, of the
-- pointers `held` outside, and of those that were lost.
abbrev pub IsCounted : (Ptr → ℕ) → Store → List Ptr → Type 0
IsCounted lost s held = (p : Ptr) → cell_ref (at s p) ≡ in_refs p s + count p held + lost p

-- Whatever holds pointers from outside, right counts stay right, and no reference is lost.
abbrev pub KeepsCounts : Store → Store → Type 0
KeepsCounts s s' =
    (lost : Ptr → ℕ) (held : List Ptr) → IsCounted lost s held → IsCounted lost s' held

-- The same for the holder of a new object.
abbrev pub HoldsNew : Store → Store → Type 0
HoldsNew s s' =
    (lost : Ptr → ℕ) (held : List Ptr) → IsCounted lost s held → IsCounted lost s' (length s ∷ held)

pub pointers-replicate : (n : ℕ) → pointers (replicate n none) ≡ []
pointers-replicate zero = refl
pointers-replicate (suc n) = pointers-replicate n

pub count-append : (p : Ptr) (xs ys : List Ptr) → count p (xs ++ ys) ≡ count p xs + count p ys
count-append p [] ys = omega arith
count-append p (x ∷ xs) ys = omega (arith, count-append p xs ys)

pub pointers-append : (v w : List (Option Ptr)) → pointers (v ++ w) ≡ pointers v ++ pointers w
pointers-append [] w = refl
pointers-append (none ∷ v) w = pointers-append v w
pointers-append (some p ∷ v) w = ap (λ l. p ∷ l) (pointers-append v w)

pub in_refs-append : (p : Ptr) (s t : Store) → in_refs p (s ++ t) ≡ in_refs p s + in_refs p t
in_refs-append p [] t = omega arith
in_refs-append p (c ∷ s) t = omega (arith, in_refs-append p s t)

-- A write replaces the slots of one cell.
pub in_refs-set :
    (p : Ptr) (s : Store) (q : Ptr) (c : Cell)
    → q < length s
    → in_refs p (set s q c) + cell_count p (at s q) ≡ in_refs p s + cell_count p c
in_refs-set p [] q c h = absurd (omega arith)
in_refs-set p (d ∷ s) zero c h = omega arith
in_refs-set p (d ∷ s) (suc q) c h = omega (arith, in_refs-set p s q c (omega arith))

pub live_count-set :
    (s : Store) (q : Ptr) (c : Cell)
    → q < length s
    → live_count (set s q c) + one_if (is_live (at s q)) ≡ live_count s + one_if (is_live c)
live_count-set [] q c h = absurd (omega arith)
live_count-set (d ∷ s) zero c h = omega arith
live_count-set (d ∷ s) (suc q) c h = omega (arith, live_count-set s q c (omega arith))

pub live_count-le : (s : Store) → live_count s ≤ length s
live_count-le [] = omega arith
live_count-le (freed ∷ s) = omega (arith, live_count-le s)
live_count-le (node ref c ∷ s) = omega (arith, live_count-le s)

-- A cell that is not freed stands in the store.
pub at-lt : (s : Store) (p : Ptr) → is_live (at s p) ≡ true → p < length s
at-lt [] p e = cc
at-lt (c ∷ s) zero e = omega arith
at-lt (c ∷ s) (suc p) e = omega (arith, at-lt s p e)

-- Two stores of one length with the same cells.
pub eq_of_cells : (s t : Store) → length s ≡ length t → ((p : Ptr) → at s p ≡ at t p) → s ≡ t
eq_of_cells [] [] e h = refl
eq_of_cells [] (d ∷ t) e h = absurd (omega arith)
eq_of_cells (c ∷ s) [] e h = absurd (omega arith)
eq_of_cells (c ∷ s) (d ∷ t) e h =
    let here = h 0 in let rest = eq_of_cells s t (omega arith) (λ p. h (suc p)) in cc
