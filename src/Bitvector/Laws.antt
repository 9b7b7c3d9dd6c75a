-- ===== src/Bitvector/Laws.antt =====
-- bitvector.c and lists of bits: `Represents bv xs` says that `bv` holds the bits `xs`.
use dorder.Prelude.{
  ℕ, zero, suc, ◌/◌, ◌%◌, ◌≤◌, ◌<◌, ◌≡◌, ◌≢◌, refl, ap, sym, ◌∙◌, subst, Bool, true, false, [], ◌∷◌,
  done, failed, arith, lt→ltb, le→ltb, length, get_or, set, get_elem?-eq-get_or, get_or-set_self,
  get_or-set_ne, length-set, if◌then◌else◌,
}
use native.Mathlib.Decide.{ℕ_discrete, dec_lt}
use dorder.Bits.{Bits, value_of, get}
use dorder.Bits.Laws.{get-done}
use dorder.Bitvector.{Bitvector, bitvector_set, bitvector_get, length_to_size}
use dorder.Bitvector.Words.{
  Word, IsExtended, masked, masked-set, masked-clear, masked-set_ne, masked-clear_ne, get_bit_pos,
  word_and, word_or, word_not,
}

abbrev pub zero_word : Word
zero_word k = false

-- The word that holds the bit `i`.
abbrev pub word_of : Bitvector → ℕ → Word
word_of bv i = get_or bv.buffer (i / 32) zero_word

-- The buffer has the words of a new vector of this length.
abbrev pub HasRoom : Bitvector → Type 0
HasRoom bv = length_to_size bv.len ≤ length bv.buffer

-- The first `n` bits are those of `xs`, and each word of which bit 31 is one of them repeats it
-- above.
pub record HoldsTo (n : ℕ) (bv : Bitvector) (xs : Bits) : Type 0 where
  pub size : bv.len ≡ length xs
  pub room : HasRoom bv
  pub bits : (i : ℕ) → i < n → i < bv.len → masked (word_of bv i) i ≡ value_of xs i
  pub extended : (i : ℕ) → i < n → i < bv.len → i % 32 ≡ 31 → IsExtended (word_of bv i)

abbrev pub Represents : Bitvector → Bits → Type 0
Represents bv xs = HoldsTo (length xs) bv xs

room_at : (bv : Bitvector) (i : ℕ) → HasRoom bv → i < bv.len → i / 32 < length bv.buffer
room_at bv i h p = omega arith

-- On a buffer that represents xs, bitvector_get returns the bit of xs at every index in range, and
-- fails an assertion at every other.
pub bitvector_get-eq-get :
    (bv : Bitvector) (xs : Bits) (i : ℕ) → Represents bv xs → bitvector_get bv i ≡ get xs i
unfolding bitvector_get
bitvector_get-eq-get bv xs i r = elim (dec_lt i (length xs)) [
  | yes p ↦
      let q : i < bv.len = omega (arith, r.size) in
      rw
        (
          lt→ltb i bv.len q,
          get_elem?-eq-get_or bv.buffer (i / 32) zero_word (room_at bv i r.room q),
          r.bits i p q,
          get-done xs i p,
        )
        refl
  | no np ↦ rw (le→ltb i bv.len (omega (arith, r.size)), none_beyond xs i (omega arith)) refl
]
  where
    none_beyond : (xs : Bits) (i : ℕ) → length xs ≤ i → get xs i ≡ failed
    none_beyond [] i h = refl
    none_beyond (x ∷ xs) zero h = absurd (omega arith)
    none_beyond (x ∷ xs) (suc i) h = none_beyond xs i (omega arith)

-- The word that a write of the bit `i` leaves.
abbrev written : Word → ℕ → Bool → Word
written w i b = if b then word_or w (get_bit_pos i) else word_and w (word_not (get_bit_pos i))

masked-written : (w : Word) (i : ℕ) (b : Bool) → masked (written w i b) i ≡ b
masked-written w i true = masked-set w i
masked-written w i false = masked-clear w i

masked-written_ne :
    (w : Word) (i j : ℕ) (b : Bool) → i % 32 ≢ j % 32 → masked (written w i b) j ≡ masked w j
masked-written_ne w i j true h = masked-set_ne w i j h
masked-written_ne w i j false h = masked-clear_ne w i j h

-- A write of bit 31 sets or clears all above it, any other write leaves them.
IsExtended-written : (w : Word) (i : ℕ) (b : Bool) → i % 32 ≡ 31 → IsExtended (written w i b)
IsExtended-written w i true h k p q = ground arith
IsExtended-written w i false h k p q = ground arith

written_high : (w : Word) (i : ℕ) (b : Bool) (k : ℕ) → i % 32 < 31 → 31 ≤ k → written w i b k ≡ w k
written_high w i true k h p = ground arith
written_high w i false k h p = ground arith

IsExtended-written_ne :
    (w : Word) (i : ℕ) (b : Bool) → i % 32 < 31 → IsExtended w → IsExtended (written w i b)
IsExtended-written_ne w i b h ext k p q =
    written_high w i b k h p ∙ ext k p q ∙ sym (written_high w i b 31 h (omega arith))

-- Writing a bit in range: what was held is held but for that bit.
module _ (bv : Bitvector) (xs : Bits) (i : ℕ) (b : Bool) (n : ℕ) (r : HoldsTo n bv xs)
    (p : i < length xs) where
  abbrev after : Bitvector
  after = record bv { buffer = set bv.buffer (i / 32) (written (word_of bv i) i b) }

  here : i / 32 < length bv.buffer
  here = omega (arith, r.room, r.size)

  bitvector_set-done : bitvector_set bv i b ≡ done after
  unfolding bitvector_set
  bitvector_set-done =
      rw
        (
          lt→ltb i bv.len (omega (arith, r.size)),
          get_elem?-eq-get_or bv.buffer (i / 32) zero_word here,
        )
        refl

  word_same : (j : ℕ) → i / 32 ≡ j / 32 → word_of after j ≡ written (word_of bv i) i b
  word_same j e =
      rw (← e) (get_or-set_self bv.buffer (i / 32) (written (word_of bv i) i b) zero_word here)

  word_apart : (j : ℕ) → i / 32 ≢ j / 32 → word_of after j ≡ word_of bv j
  word_apart j ne =
      get_or-set_ne bv.buffer (i / 32) (j / 32) (written (word_of bv i) i b) zero_word ne

  word_back : (j : ℕ) → i / 32 ≡ j / 32 → word_of bv i ≡ word_of bv j
  word_back j e = ap (λ q. get_or bv.buffer q zero_word) e

  pub bitvector_set-HoldsTo :
      (m : ℕ)
      → ((j : ℕ) → j < m → j ≢ i → j < n)
      → (bv' : Bitvector) × (bitvector_set bv i b ≡ done bv')
        × HoldsTo m bv' (set xs i b)
        × (bv'.size ≡ bv.size)
        × (bv'.len ≡ bv.len)
        × (length bv'.buffer ≡ length bv.buffer)
  bitvector_set-HoldsTo m old = (
    after,
    bitvector_set-done,
    record {
      size = r.size ∙ sym (length-set xs i b);
      room = omega (arith, r.room, length-set bv.buffer (i / 32) (written (word_of bv i) i b));
      bits = λ j h inside. elim (ℕ_discrete i j) [
        | yes e ↦
            ap (λ w. masked w j) (word_same j (ap (λ t. t / 32) e))
            ∙ subst (λ t. masked (written (word_of bv i) i b) t ≡ value_of (set xs i b) t) e
                (masked-written (word_of bv i) i b ∙ sym (get_or-set_self xs i b false p))
        | no ne ↦
            let was =
              r.bits j (old j h (λ e. ne (sym e))) inside ∙ sym (get_or-set_ne xs i j b false ne) in
            elim (ℕ_discrete (i / 32) (j / 32)) [
              | yes e ↦
                  ap (λ w. masked w j) (word_same j e)
                  ∙ (masked-written_ne (word_of bv i) i j b (omega arith)
                      ∙ (ap (λ w. masked w j) (word_back j e) ∙ was))
              | no apart ↦ ap (λ w. masked w j) (word_apart j apart) ∙ was
            ]
      ];
      extended = λ j h inside top. elim (ℕ_discrete i j) [
        | yes e ↦
            subst IsExtended (sym (word_same j (ap (λ t. t / 32) e)))
              (IsExtended-written (word_of bv i) i b (ap (λ t. t % 32) e ∙ top))
        | no ne ↦
            let was = r.extended j (old j h (λ e. ne (sym e))) inside top in
            elim (ℕ_discrete (i / 32) (j / 32)) [
              | yes e ↦ subst IsExtended (sym (word_same j e)) (
                  IsExtended-written_ne (word_of bv i) i b (omega arith)
                    (subst IsExtended (sym (word_back j e)) was))
              | no apart ↦ subst IsExtended (sym (word_apart j apart)) was
            ]
      ];
    },
    refl,
    refl,
    length-set bv.buffer (i / 32) (written (word_of bv i) i b),
  )
