-- ===== src/Bits.antt =====
-- The abstract view of external/cdnfcore/bitvector.c: a bit vector is the list of its bits, and a
-- failed `assert` or a read out of bounds ends the run. The learner works on this view.
pub mod Laws
use dorder.Prelude.{
  ℕ, zero, suc, ◌≡◌, Bool, true, false, xor, not, ◌&&◌, Option, none, some, List, [], ◌∷◌, ◌++◌,
  Run, done, ◌>>=◌, ◌>>◌, assert, checked, ltb, ◌==◌, length, get_elem?, get_or, set, take,
  replicate, if◌then◌else◌,
}

abbrev pub Bits : Type 0
Bits = List Bool

-- The bits as an assignment of the variables, for statements.
abbrev pub value_of : Bits → ℕ → Bool
value_of bv v = get_or bv v false

abbrev pub get : Bits → ℕ → Run Bool
get bv i = checked (get_elem? bv i)

abbrev pub put : Bits → ℕ → Bool → Run Bits
put bv i b = do assert (ltb i (length bv)); done (set bv i b)

-- The bits that `xor` returns.
abbrev pub xor_bits : Bits → Bits → Bits
xor_bits [] _ = []
xor_bits (a ∷ as_) [] = []
xor_bits (a ∷ as_) (b ∷ bs) = xor a b ∷ xor_bits as_ bs

abbrev pub xor_of : Bits → Bits → Run Bits
xor_of v w = do assert (length v == length w); done (xor_bits v w)

abbrev pub all_zeros : Bits → Bool
all_zeros [] = true
all_zeros (b ∷ bs) = not b && all_zeros bs

abbrev pub is_zeros : Bits → Run Bool
is_zeros bv = do assert (not (length bv == 0)); done (all_zeros bv)

-- One bit more; the caller sets it at once.
abbrev pub extend : Bits → Bool → Bits
extend bv b = bv ++ b ∷ []
