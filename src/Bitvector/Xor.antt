-- ===== src/Bitvector/Xor.antt =====
-- `bitvector_xor` of bitvector.c, and `bitvector_copy` where `size` is out of date.
use dorder.Prelude.{
  ℕ, zero, suc, ◌/◌, ◌≤◌, ◌<◌, ◌≡◌, refl, ap, sym, ◌∙◌, subst, false, xor, List, done, failed,
  arith, lt→ltb, length, get_or, set, get_elem?-eq-get_or, get_or-set_self, get_or-set_ne,
  length-set, eq→==, replicate, length-replicate, gt→leb,
}
use native.Mathlib.Decide.{ℕ_discrete}
use dorder.Bits.{Bits, value_of, xor_bits}
use dorder.Bits.Laws.{value_of-xor_bits, length-xor_bits}
use dorder.Bitvector.{
  Bitvector, bitvector_new, length_to_size, xor_loop, bitvector_xor, bitvector_copy,
}
use dorder.Bitvector.Words.{Word, IsExtended, masked, word_xor, masked-xor}
use dorder.Bitvector.Laws.{Represents, zero_word, word_of}
use dorder.Bitvector.Whole.{bitvector_new-HoldsTo}

module _ (junk : ℕ → Word) where
  -- A copy of a vector that is not empty and whose size is below that of a new one fails an
  -- assertion.
  pub bitvector_copy-failed :
      (bv : Bitvector)
      → 0 < bv.len
      → bv.size < length_to_size bv.len
      → bitvector_copy junk bv ≡ failed
  unfolding bitvector_copy
  bitvector_copy-failed bv p h = fails (replicate bv.len false) (length-replicate bv.len false)
    where
      fails : (xs : Bits) → length xs ≡ bv.len → bitvector_copy junk bv ≡ failed
      fails xs e =
          let (r, new, _, size, _) = bitvector_new-HoldsTo junk xs (omega arith) in
          rw (subst (λ n. bitvector_new junk n ≡ done r) e new, gt→leb r.size bv.size (omega arith))
            refl

  -- What the loop of `bitvector_xor` leaves.
  xor_loop-done :
      (n : ℕ) (bv0 bv1 : Bitvector) (buffer : List Word)
      → n ≤ length bv0.buffer
      → n ≤ length bv1.buffer
      → n ≤ length buffer
      → (words : List Word) × (xor_loop junk n bv0 bv1 buffer ≡ done words)
        × (length words ≡ length buffer)
        × ((i : ℕ)
            → i < n
            → get_or words i zero_word
              ≡ word_xor (get_or bv0.buffer i zero_word) (get_or bv1.buffer i zero_word))
        × ((i : ℕ) → n ≤ i → get_or words i zero_word ≡ get_or buffer i zero_word)
  unfolding xor_loop
  xor_loop-done zero bv0 bv1 buffer p q s =
      (buffer, refl, refl, λ i h. absurd (omega arith), λ i h. refl)
  xor_loop-done (suc n) bv0 bv1 buffer p q s =
      let word = word_xor (get_or bv0.buffer n zero_word) (get_or bv1.buffer n zero_word) in
      let (words, e, len, done_, kept) =
        xor_loop-done n bv0 bv1 (set buffer n word) (omega arith) (omega arith)
          (omega (arith, length-set buffer n word)) in
      (
        words,
        rw
            (
              get_elem?-eq-get_or bv0.buffer n zero_word p,
              get_elem?-eq-get_or bv1.buffer n zero_word q,
              lt→ltb n (length buffer) s,
            )
            e,
        len ∙ length-set buffer n word,
        λ i h. elim (ℕ_discrete i n) [
          | yes at ↦
              rw at (kept n (omega arith) ∙ get_or-set_self buffer n word zero_word (omega arith))
          | no ne ↦ done_ i (omega arith)
        ],
        λ i h. kept i (omega arith) ∙ get_or-set_ne buffer n i word zero_word (omega arith),
      )

  -- For two vectors of one length that is not 0, bitvector_xor returns a vector that represents
  -- the exclusive or of their bits.
  pub bitvector_xor-Represents :
      (bv0 bv1 : Bitvector) (xs ys : Bits)
      → Represents bv0 xs
      → Represents bv1 ys
      → length xs ≡ length ys
      → 0 < length xs
      → (bv : Bitvector) × (bitvector_xor junk bv0 bv1 ≡ done bv) × Represents bv (xor_bits xs ys)
  unfolding bitvector_xor
  bitvector_xor-Represents bv0 bv1 xs ys r0 r1 eq pos_ =
      let (r, new, holds, size, room) = bitvector_new-HoldsTo junk xs pos_ in
      let (words, e, len, done_, _) =
        xor_loop-done r.size bv0 bv1 r.buffer (omega (arith, r0.room, r0.size))
          (omega (arith, r1.room, r1.size)) (omega arith) in
      let result : Bitvector = record r { buffer = words } in
      let word_at = λ (i : ℕ) (p : i < length xs). done_ (i / 32) (omega arith) in
      (
        result,
        rw
            (
              eq→== bv0.len bv1.len (r0.size ∙ (eq ∙ sym r1.size)),
              subst (λ n. bitvector_new junk n ≡ done r) (sym r0.size) new,
              e,
            )
            refl,
        record {
          size = holds.size ∙ (length-set xs 0 false ∙ sym (length-xor_bits xs ys eq));
          room = omega (arith, len, room, holds.size, length-set xs 0 false);
          bits = λ i p inside.
              let q : i < length xs = omega (arith, length-xor_bits xs ys eq) in
              ap (λ w. masked w i) (word_at i q)
              ∙ (masked-xor (word_of bv0 i) (word_of bv1 i) i
                    (r0.extended i q (omega (arith, r0.size)))
                    (r1.extended i (omega arith) (omega (arith, r1.size)))
                  ∙ (ap (λ b. xor b (masked (word_of bv1 i) i))
                        (r0.bits i q (omega (arith, r0.size)))
                      ∙ (ap (xor (value_of xs i)) (r1.bits i (omega arith) (omega (arith, r1.size)))
                          ∙ sym (value_of-xor_bits xs ys i eq))));
          extended = λ i p inside top.
              let q : i < length xs = omega (arith, length-xor_bits xs ys eq) in
              subst IsExtended (sym (word_at i q)) (
                both (word_of bv0 i) (word_of bv1 i) (r0.extended i q (omega (arith, r0.size)) top)
                  (r1.extended i (omega arith) (omega (arith, r1.size)) top));
        },
      )
    where
      both : (w u : Word) → IsExtended w → IsExtended u → IsExtended (word_xor w u)
      both w u ew eu k p q = rw (ew k p q, eu k p q) refl
