-- ===== src/Bitvector/Zeros.antt =====
-- `bitvector_copy` and `bitvector_is_zeros` of bitvector.c, on vectors whose `size` is up to date.
use dorder.Prelude.{
  ℕ, zero, suc, ◌+◌, ◌-◌, ◌*◌, ◌/◌, ◌≤◌, ◌<◌, ◌≡◌, refl, ap, sym, ◌∙◌, subst, Bool, true, false,
  ◌&&◌, List, [], ◌∷◌, done, arith, lt→ltb, length, get_or, set, get_elem?-eq-get_or,
  get_or-set_self, get_or-set_ne, length-set, Bool-cases, ◌⊎◌, inl, inr, eq→==, ◌==◌, le→leb,
}
use native.Mathlib.Decide.{ℕ_discrete, dec_lt}
use dorder.Bits.{Bits, value_of, all_zeros, is_zeros}
use dorder.Bits.Laws.{all_zeros-true, get-done}
use dorder.Bitvector.{
  Bitvector, bitvector_new, length_to_size, copy_loop, bitvector_copy, zeros_words, zeros_bits,
  bitvector_is_zeros,
}
use dorder.Bitvector.Words.{
  Word, IsExtended, masked, word_and, get_bit_pos, nonzero, any_below-intro, any_below-elim,
}
use dorder.Bitvector.Laws.{Represents, zero_word, bitvector_get-eq-get}
use dorder.Bitvector.Whole.{bitvector_new-HoldsTo}

module _ (junk : ℕ → Word) where
  pub copy_loop-done :
      (n i : ℕ) (bv : Bitvector) (buffer : List Word)
      → i + n ≤ length bv.buffer
      → i + n ≤ length buffer
      → (words : List Word) × (copy_loop junk i n bv buffer ≡ done words)
        × (length words ≡ length buffer)
        × ((k : ℕ) → i ≤ k → k < i + n → get_or words k zero_word ≡ get_or bv.buffer k zero_word)
        × ((k : ℕ) → k < i → get_or words k zero_word ≡ get_or buffer k zero_word)
  unfolding copy_loop
  copy_loop-done zero i bv buffer p q =
      (buffer, refl, refl, λ k h g. absurd (omega arith), λ k h. refl)
  copy_loop-done (suc n) i bv buffer p q =
      let word = get_or bv.buffer i zero_word in
      let (words, e, len, done_, kept) =
        copy_loop-done n (suc i) bv (set buffer i word) (omega arith)
          (omega (arith, length-set buffer i word)) in
      (
        words,
        rw
            (
              get_elem?-eq-get_or bv.buffer i zero_word (omega arith),
              lt→ltb i (length buffer) (omega arith),
            )
            e,
        len ∙ length-set buffer i word,
        λ k h g. elim (ℕ_discrete k i) [
          | yes at ↦
              rw at (kept i (omega arith) ∙ get_or-set_self buffer i word zero_word (omega arith))
          | no ne ↦ done_ k (omega arith) (omega arith)
        ],
        λ k h. kept k (omega arith) ∙ get_or-set_ne buffer i k word zero_word (omega arith),
      )

  -- A copy of a vector that is not empty and whose size is at least that of a new one represents
  -- the same bits, and has the size of a new vector.
  pub bitvector_copy-Represents :
      (bv : Bitvector) (xs : Bits)
      → Represents bv xs
      → 0 < length xs
      → length_to_size bv.len ≤ bv.size
      → (bv' : Bitvector) × (bitvector_copy junk bv ≡ done bv')
        × Represents bv' xs
        × (bv'.size ≡ length_to_size (length xs))
  unfolding bitvector_copy
  bitvector_copy-Represents bv xs r pos_ fresh =
      let (new_, new, holds, size, room) = bitvector_new-HoldsTo junk xs pos_ in
      let (words, e, len, done_, _) =
        copy_loop-done new_.size 0 bv new_.buffer (omega (arith, r.room, r.size)) (omega arith) in
      let result : Bitvector = record new_ { buffer = words } in
      let word_at = λ (i : ℕ) (p : i < length xs). done_ (i / 32) (omega arith) (omega arith) in
      (
        result,
        rw
            (
              subst (λ n. bitvector_new junk n ≡ done new_) (sym r.size) new,
              le→leb new_.size bv.size (omega (arith, r.size)),
              e,
            )
            refl,
        record {
          size = holds.size ∙ length-set xs 0 false;
          room = omega (arith, len, room, holds.size, length-set xs 0 false);
          bits =
              λ i p inside. ap (λ w. masked w i) (word_at i p) ∙ r.bits i p (omega (arith, r.size));
          extended = λ i p inside top.
              subst IsExtended (sym (word_at i p)) (r.extended i p (omega (arith, r.size)) top);
        },
        size,
      )

-- A word that is not zero has one of its 32 bits set, and the other way round.
nonzero-masked :
    (w : Word) (q : ℕ) → nonzero w ≡ true → (r : ℕ) × (r < 32) × (masked w (32 * q + r) ≡ true)
nonzero-masked w q h =
    let (k, p, e) = any_below-elim 64 w h in
    elim (dec_lt k 31) [
      | yes low ↦ (
        k,
        omega arith,
        any_below-intro 64 k (word_and w (get_bit_pos (32 * q + k))) p (low_bit k low e),
      )
      | no high ↦ (
        31,
        omega arith,
        any_below-intro 64 k (word_and w (get_bit_pos (32 * q + 31))) p
            (high_bit k (omega arith) e),
      )
    ]
  where
    low_bit : (k : ℕ) → k < 31 → w k ≡ true → word_and w (get_bit_pos (32 * q + k)) k ≡ true
    low_bit k h e = ground (arith, e)

    high_bit : (k : ℕ) → 31 ≤ k → w k ≡ true → word_and w (get_bit_pos (32 * q + 31)) k ≡ true
    high_bit k h e = ground (arith, e)

zero-masked : (w : Word) (i : ℕ) → nonzero w ≡ false → masked w i ≡ false
zero-masked w i h = elim (Bool-cases (masked w i)) [
  | inr e ↦ e
  | inl e ↦
      let (k, p, q) = any_below-elim 64 (word_and w (get_bit_pos i)) e in
      absurd (clash (any_below-intro 64 k w p (both (w k) (get_bit_pos i k) q)) h)
]
  where
    both : (a b : Bool) → (a && b) ≡ true → a ≡ true
    both a b h = ground arith

    clash : {b : Bool} → b ≡ true → b ≡ false → ⊥
    clash p q = cc

-- `all_zeros`, from the bits.
all_zeros-intro :
    (xs : Bits) → ((i : ℕ) → i < length xs → value_of xs i ≡ false) → all_zeros xs ≡ true
all_zeros-intro [] h = refl
all_zeros-intro (x ∷ xs) h =
    rw (h 0 (omega arith), all_zeros-intro xs (λ i p. h (suc i) (omega arith))) refl

all_zeros-set : (xs : Bits) (i : ℕ) → value_of xs i ≡ true → all_zeros xs ≡ false
all_zeros-set xs i h = elim (Bool-cases (all_zeros xs)) [
  | inr e ↦ e
  | inl e ↦ absurd (clash h (all_zeros-true xs i e))
]
  where
    clash : {b : Bool} → b ≡ true → b ≡ false → ⊥
    clash p q = cc

module _ (bv : Bitvector) (xs : Bits) (r : Represents bv xs) where
  -- The loop over whole words finds a bit that is set, or there is none below its end.
  zeros_words-done :
      (n j : ℕ)
      → 32 * (j + n) ≤ length xs
      → j + n ≤ bv.size
      → ((zeros_words j n bv ≡ done true) × (all_zeros xs ≡ false))
        ⊎ ((zeros_words j n bv ≡ done false)
            × ((i : ℕ) → 32 * j ≤ i → i < 32 * (j + n) → value_of xs i ≡ false))
  unfolding zeros_words
  zeros_words-done zero j p s = inr (refl, λ i a b. absurd (omega arith))
  zeros_words-done (suc n) j p s =
      let read = get_elem?-eq-get_or bv.buffer j zero_word (omega (arith, r.room, r.size)) in
      let inside = lt→ltb j bv.size (omega arith) in
      elim (Bool-cases (nonzero (get_or bv.buffer j zero_word))) [
        | inl found ↦
            let (k, kp, set_) = nonzero-masked (get_or bv.buffer j zero_word) j found in
            inl (
              rw (inside, read, found) refl,
              all_zeros-set xs (32 * j + k) (
                  sym (r.bits (32 * j + k) (omega arith) (omega (arith, r.size)))
                  ∙ (ap (λ t. masked (get_or bv.buffer t zero_word) (32 * j + k)) (quotient k kp)
                      ∙ set_)),
            )
        | inr none_ ↦ elim (zeros_words-done n (suc j) (omega arith) (omega arith)) [
          | inl (e, z) ↦ inl (rw (inside, read, none_) e, z)
          | inr (e, z) ↦ inr (
            rw (inside, read, none_) e,
            λ i a b. elim (dec_lt i (32 * suc j)) [
              | no later ↦ z i (omega arith) (omega arith)
              | yes now ↦
                  sym (r.bits i (omega arith) (omega (arith, r.size)))
                  ∙ (ap (λ t. masked (get_or bv.buffer t zero_word) i) (word_index i a now)
                      ∙ zero-masked (get_or bv.buffer j zero_word) i none_)
            ],
          )
        ]
      ]
    where
      quotient : (k : ℕ) → k < 32 → (32 * j + k) / 32 ≡ j
      quotient k h = omega arith

      word_index : (i : ℕ) → 32 * j ≤ i → i < 32 * suc j → i / 32 ≡ j
      word_index i a b = omega arith

  zeros_bits-done :
      (n i : ℕ)
      → i + n ≡ length xs
      → ((zeros_bits i n bv ≡ done false) × (all_zeros xs ≡ false))
        ⊎ ((zeros_bits i n bv ≡ done true)
            × ((k : ℕ) → i ≤ k → k < length xs → value_of xs k ≡ false))
  unfolding zeros_bits
  zeros_bits-done zero i e = inr (refl, λ k a b. absurd (omega arith))
  zeros_bits-done (suc n) i e =
      let read = bitvector_get-eq-get bv xs i r ∙ get-done xs i (omega arith) in
      elim (Bool-cases (value_of xs i)) [
        | inl set_ ↦ inl (rw (read, set_) refl, all_zeros-set xs i set_)
        | inr clear ↦ elim (zeros_bits-done n (suc i) (omega arith)) [
          | inl (q, z) ↦ inl (rw (read, clear) q, z)
          | inr (q, z) ↦ inr (
            rw (read, clear) q,
            λ k a b. elim (ℕ_discrete i k) [
              | yes at ↦ rw (← at) clear
              | no ne ↦ z k (omega arith) b
            ],
          )
        ]
      ]

  -- On a vector that is not empty and whose size is that of a new one, no assertion of
  -- bitvector_is_zeros fails, and it tells whether all bits are zero.
  pub bitvector_is_zeros-eq-is_zeros :
      0 < length xs → bv.size ≡ length_to_size bv.len → bitvector_is_zeros bv ≡ is_zeros xs
  unfolding bitvector_is_zeros
  bitvector_is_zeros-eq-is_zeros pos_ fresh =
      let w = bv.len / 32 in
      let filled = nonempty bv.len (omega (arith, r.size)) in
      let full = nonempty (length xs) pos_ in
      let last : (w == (bv.size - 1)) ≡ true = eq→== w (bv.size - 1) (omega arith) in
      elim (zeros_words-done w 0 (omega (arith, r.size)) (omega arith)) [
        | inl (e, z) ↦ rw (filled, full, e, z) refl
        | inr (e, z) ↦ elim (zeros_bits-done (bv.len - w * 32) (w * 32) (omega (arith, r.size))) [
          | inl (q, z') ↦ rw (filled, full, e, last, q, z') refl
          | inr (q, z') ↦
              let all = all_zeros-intro xs (λ i p. elim (dec_lt i (32 * (0 + w))) [
                | yes low ↦ z i (omega arith) low
                | no high ↦ z' i (omega arith) p
              ]) in
              rw (filled, full, e, last, q, all) refl
        ]
      ]
    where
      nonempty : (n : ℕ) → 0 < n → (n == 0) ≡ false
      nonempty n h = ground arith
