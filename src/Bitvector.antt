-- ===== src/Bitvector.antt =====
-- external/cdnfcore/bitvector.c: bit vectors as buffers of words of which 32 bits are used. What
-- `malloc` and `realloc` leave in new words is the parameter `junk`.
pub mod Words
pub mod Laws
pub mod Whole
pub mod Xor
pub mod Resized
pub mod Zeros
pub mod Print
use dorder.Prelude.{
  ℕ, zero, suc, ◌+◌, ◌-◌, ◌*◌, ◌/◌, Bool, true, false, not, ◌||◌, List, [], ◌∷◌, ◌++◌, Run, done,
  failed, ◌>>=◌, ◌>>◌, assert, checked, ltb, leb, ◌==◌, length, get_elem?, get_or, set,
  if◌then◌else◌,
}
use dorder.Bitvector.Words.{
  Word, word_and, word_or, word_not, word_xor, nonzero, any_below, bits_in_int, get_array_idx,
  get_bit_pos,
}

pub record Bitvector : Type 0 where
  pub len : ℕ
  pub size : ℕ
  pub buffer : List Word

abbrev pub length_to_size : ℕ → ℕ
length_to_size length = 1 + length / bits_in_int

-- `n` words that read as `f` says.
abbrev pub tabulate_from : ℕ → ℕ → (ℕ → Word) → List Word
tabulate_from i zero f = []
tabulate_from i (suc n) f = f i ∷ tabulate_from (suc i) n f

unfoldable pub bitvector_set : Bitvector → ℕ → Bool → Run Bitvector
bitvector_set bv idx b = do
  assert (ltb idx bv.len)
  w ← checked (get_elem? bv.buffer (get_array_idx idx))
  let w' = if b then word_or w (get_bit_pos idx) else word_and w (word_not (get_bit_pos idx))
  done (record bv { buffer = set bv.buffer (get_array_idx idx) w' })

unfoldable pub bitvector_get : Bitvector → ℕ → Run Bool
unfolding any_below
bitvector_get bv idx = do
  assert (ltb idx bv.len)
  w ← checked (get_elem? bv.buffer (get_array_idx idx))
  done (nonzero (word_and w (get_bit_pos idx)))

module _ (junk : ℕ → Word) where
  -- Of length 0 it has no buffer.
  unfoldable pub bitvector_new : ℕ → Run Bitvector
  unfolding bitvector_set
  bitvector_new zero = done (record { len = 0; size = length_to_size 0; buffer = [] })
  bitvector_new (suc n) =
      bitvector_set
        (record {
          len = suc n;
          size = length_to_size (suc n);
          buffer = tabulate_from 0 (length_to_size (suc n)) junk;
        })
        0 false

  -- `realloc`: the old words are kept, as far as there is room.
  unfoldable pub realloc : List Word → ℕ → List Word
  realloc buffer n = tabulate_from 0 n (λ i. get_or buffer i (junk i))

  -- `size` stays what it was.
  unfoldable pub bitvector_resize : Bitvector → ℕ → Bitvector
  unfolding realloc
  bitvector_resize bv new_length = record {
    len = new_length;
    size = bv.size;
    buffer =
        if ltb bv.size (length_to_size new_length)
        then realloc bv.buffer (length_to_size new_length)
        else bv.buffer;
  }

  -- The loop over the words, from the last one down.
  unfoldable pub xor_loop : ℕ → Bitvector → Bitvector → List Word → Run (List Word)
  xor_loop zero bv0 bv1 buffer = done buffer
  xor_loop (suc i) bv0 bv1 buffer = do
    w0 ← checked (get_elem? bv0.buffer i)
    w1 ← checked (get_elem? bv1.buffer i)
    assert (ltb i (length buffer))
    xor_loop i bv0 bv1 (set buffer i (word_xor w0 w1))

  unfoldable pub bitvector_xor : Bitvector → Bitvector → Run Bitvector
  unfolding bitvector_new xor_loop
  bitvector_xor bv0 bv1 = do
    assert (bv0.len == bv1.len)
    result ← bitvector_new bv0.len
    buffer ← xor_loop result.size bv0 bv1 result.buffer
    done (record result { buffer = buffer })

  -- The loop over the words from `i` on, `n` of which are left.
  unfoldable pub copy_loop : ℕ → ℕ → Bitvector → List Word → Run (List Word)
  copy_loop i zero bv buffer = done buffer
  copy_loop i (suc n) bv buffer = do
    w ← checked (get_elem? bv.buffer i)
    assert (ltb i (length buffer))
    copy_loop (suc i) n bv (set buffer i w)

  unfoldable pub bitvector_copy : Bitvector → Run Bitvector
  unfolding bitvector_new copy_loop
  bitvector_copy bv = do
    result ← bitvector_new bv.len
    assert (leb result.size bv.size)
    buffer ← copy_loop 0 result.size bv result.buffer
    done (record result { buffer = buffer })

-- The words that are used whole: from `j` on, `n` of them are left. The result says whether the
-- function returns here, because one is not zero.
unfoldable pub zeros_words : ℕ → ℕ → Bitvector → Run Bool
unfolding any_below
zeros_words j zero bv = done false
zeros_words j (suc n) bv = do
  assert (ltb j bv.size)
  w ← checked (get_elem? bv.buffer j)
  let rest = zeros_words (suc j) n bv
  if nonzero w then done true else rest

-- The bits from `i` on, `n` of which are left: whether all are zero.
unfoldable pub zeros_bits : ℕ → ℕ → Bitvector → Run Bool
unfolding bitvector_get
zeros_bits i zero bv = done true
zeros_bits i (suc n) bv = do
  b ← bitvector_get bv i
  let rest = zeros_bits (suc i) n bv
  if b then done false else rest

unfoldable pub bitvector_is_zeros : Bitvector → Run Bool
unfolding zeros_words zeros_bits
bitvector_is_zeros bv = do
  assert (not (bv.len == 0))
  found ← zeros_words 0 (bv.len / bits_in_int) bv
  let words = bv.len / bits_in_int
  let bits = words * bits_in_int
  let rest = zeros_bits bits (bv.len - bits) bv
  if found then done false else (assert (words == (bv.size - 1) || bits == bv.len) >> rest)
