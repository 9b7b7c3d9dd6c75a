-- ===== src/Examples/Freed.antt =====
-- `cleanup` of cdnf.c on one basis with a support, and another learner's buffer beside it.
use dorder.Prelude.{◌≡◌, [], ◌∷◌, some, pos, done, refl, arith}
use dorder.BoolFormula.Store.Count.{count}
use dorder.Memory.{
  Addr, Memory, Block, BasisBlock, cleanup, give_back, for_items, free_basis, vector_free,
  bitvector_free, disjunction_free,
}
use dorder.Memory.Given.{Holds, bases_blocks, cleanup-GivesBack}

abbrev basis : BasisBlock
basis = record {
  self = 1;
  h = record {
    self = 2;
    buffer = some 3;
    items = record { self = 4; buffer = some 5; items = pos 1 ∷ [] } ∷ [];
  };
  t = record { self = 6; buffer = some 7; items = record { self = 8; buffer = some 9 } ∷ [] };
  a = record { self = 10; buffer = some 11 };
}

abbrev bases : Block BasisBlock
bases = record { self = 12; buffer = some 13; items = basis ∷ [] }

abbrev memory : Memory
memory = 1 ∷ 2 ∷ 3 ∷ 4 ∷ 5 ∷ 6 ∷ 7 ∷ 8 ∷ 9 ∷ 10 ∷ 11 ∷ 12 ∷ 13 ∷ 14 ∷ []

memory-Holds : Holds memory (bases_blocks bases) (14 ∷ [])
memory-Holds p = omega arith

cleanup-GivesBack_example :
    (m : Memory) × (cleanup bases memory ≡ done m) × ((p : Addr) → count p m ≡ count p (14 ∷ []))
cleanup-GivesBack_example = cleanup-GivesBack bases memory (14 ∷ []) memory-Holds

cleanup-memory : cleanup bases memory ≡ done (14 ∷ [])
unfolding cleanup give_back for_items free_basis vector_free bitvector_free disjunction_free
cleanup-memory = refl
