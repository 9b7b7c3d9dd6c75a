-- ===== src/Examples/Buffers.antt =====
-- vector.c and bitvector.c: the theorems at vectors of three elements.
use dorder.Prelude.{
  ℕ, zero, suc, ◌*◌, ◌≤◌, ◌<◌, ◌≡◌, refl, true, false, List, [], ◌∷◌, ◌++◌, none, some, done, ◌⊎◌,
  ◌==◌, arith, get_elem?, get_or,
}
use dorder.Bits.{Bits, value_of, xor_bits, is_zeros, extend}
use dorder.Vector.{Vector, vector_add}
use dorder.Vector.{length_to_size as vector_size}
use dorder.Vector.Growth.{length_to_size_bounds}
use dorder.Vector.Laws.{Holds, vector_add-Holds}
use dorder.Bitvector.{
  Bitvector, bitvector_set, bitvector_resize, bitvector_xor, bitvector_copy, bitvector_is_zeros,
}
use dorder.Bitvector.Words.{Word, any_below, masked}
use dorder.Bitvector.Laws.{Represents, word_of}
use dorder.Bitvector.Whole.{IsAllocated, resize-Represents}
use dorder.Bitvector.Xor.{bitvector_xor-Represents}
use dorder.Bitvector.Resized.{is_failed, bitvector_copy-bitvector_resize}
use dorder.Bitvector.Print.{bitvector_print, digits, bitvector_print-digits}
use dorder.Bitvector.Zeros.{bitvector_copy-Represents, bitvector_is_zeros-eq-is_zeros}

length_to_size_bounds_example :
    (n : ℕ) × (vector_size 13 ≡ done n) × (13 ≤ n) × (8 ≤ n) × ((n ≡ 8) ⊎ (2 * n < 39))
length_to_size_bounds_example = length_to_size_bounds 13 (omega arith)

abbrev slots : Vector ℕ
slots = record {
  len = 3;
  size = 8;
  buffer = some 5 ∷ some 6 ∷ some 7 ∷ none ∷ none ∷ none ∷ none ∷ none ∷ [];
}

abbrev numbers : List ℕ
numbers = 5 ∷ 6 ∷ 7 ∷ []

Holds-slots : Holds slots numbers
Holds-slots = record { len = refl; room = omega arith; size = refl; slots = each }
  where
    each : (i : ℕ) → i < 3 → get_or slots.buffer i none ≡ get_elem? numbers i
    each zero h = refl
    each (suc zero) h = refl
    each (suc (suc zero)) h = refl
    each (suc (suc (suc i))) h = absurd (omega arith)

vector_add-Holds_example :
    (vec' : Vector ℕ) × (vector_add slots 9 ≡ done vec') × Holds vec' (numbers ++ 9 ∷ [])
vector_add-Holds_example = vector_add-Holds slots numbers 9 Holds-slots (omega arith)

abbrev junk : ℕ → Word
junk i k = true

-- Bit 1 of the only word is set.
abbrev one_word : Bitvector
one_word = record { len = 3; size = 1; buffer = (λ k. k == 1) ∷ [] }

abbrev bits : Bits
bits = false ∷ true ∷ false ∷ []

Represents-one_word : Represents one_word bits
unfolding any_below
Represents-one_word = record {
  size = refl;
  room = omega arith;
  bits = each;
  extended = λ i h p top. absurd (omega arith);
}
  where
    each : (i : ℕ) → i < 3 → i < 3 → masked (word_of one_word i) i ≡ value_of bits i
    each zero h p = refl
    each (suc zero) h p = refl
    each (suc (suc zero)) h p = refl
    each (suc (suc (suc i))) h p = absurd (omega arith)

resize-Represents_example :
    (bv' : Bitvector) × (bitvector_set (bitvector_resize junk one_word 4) 3 true ≡ done bv')
    × Represents bv' (extend bits true)
    × IsAllocated bv'
    × (bv'.size ≡ 1)
resize-Represents_example =
    resize-Represents junk one_word bits Represents-one_word (omega arith) true

bitvector_xor-Represents_example :
    (bv : Bitvector) × (bitvector_xor junk one_word one_word ≡ done bv)
    × Represents bv (xor_bits bits bits)
bitvector_xor-Represents_example =
    bitvector_xor-Represents junk one_word one_word bits bits Represents-one_word
      Represents-one_word refl (omega arith)

bitvector_copy-Represents_example :
    (bv' : Bitvector) × (bitvector_copy junk one_word ≡ done bv')
    × Represents bv' bits
    × (bv'.size ≡ 1)
bitvector_copy-Represents_example =
    bitvector_copy-Represents junk one_word bits Represents-one_word (omega arith) (omega arith)

-- A vector of 31 bits, the most for one word.
abbrev full_word : Bitvector
full_word = record { len = 31; size = 1; buffer = junk 0 ∷ [] }

bitvector_copy-bitvector_resize_example :
    is_failed (bitvector_copy junk (bitvector_resize junk full_word 32)) ≡ true
bitvector_copy-bitvector_resize_example =
    bitvector_copy-bitvector_resize junk full_word 32 (omega arith) refl (omega arith) (omega arith)

bitvector_is_zeros-eq-is_zeros_example : bitvector_is_zeros one_word ≡ is_zeros bits
bitvector_is_zeros-eq-is_zeros_example =
    bitvector_is_zeros-eq-is_zeros one_word bits Represents-one_word (omega arith) refl

-- 010, the bit 0 last
bitvector_print-digits_example : bitvector_print one_word ≡ done (digits 3 bits (b'\n' ∷ []))
bitvector_print-digits_example =
    bitvector_print-digits one_word bits Represents-one_word (omega arith)
