-- ===== src/Bitvector/Words.antt =====
-- The words of external/cdnfcore/bitvector.c on x86_64: a `uscalar_t` is given by its 64 bits, and
-- the masks are those of the `int` expression `1 << r`, sign-extended for r = 31.
use native.Mathlib.Decide.{dec_lt}
use dorder.Prelude.{
  ℕ, zero, suc, ◌/◌, ◌%◌, ◌≤◌, ◌<◌, ◌≡◌, ◌≢◌, refl, ap, fun_ext, Bool, true, false, not, xor, ◌&&◌,
  ◌||◌, arith, leb, ◌==◌, if◌then◌else◌, Bool-cases, inl, inr,
}

abbrev pub Word : Type 0
Word = ℕ → Bool

abbrev pub word_and : Word → Word → Word
word_and w u = λ k. w k && u k

abbrev pub word_or : Word → Word → Word
word_or w u = λ k. w k || u k

abbrev pub word_not : Word → Word
word_not w = λ k. not (w k)

abbrev pub word_xor : Word → Word → Word
word_xor w u = λ k. xor (w k) (u k)

-- Some bit below `n` is set.
unfoldable pub any_below : ℕ → Word → Bool
any_below zero w = false
any_below (suc n) w = w n || any_below n w

-- w != 0
abbrev pub nonzero : Word → Bool
nonzero w = any_below 64 w

abbrev pub bits_in_int : ℕ
bits_in_int = 32

abbrev pub get_array_idx : ℕ → ℕ
get_array_idx idx = idx / bits_in_int

abbrev pub get_bit_pos : ℕ → Word
get_bit_pos idx = λ k. if (idx % bits_in_int) == 31 then leb 31 k else k == (idx % bits_in_int)

pub any_below-intro : (n k : ℕ) (w : Word) → k < n → w k ≡ true → any_below n w ≡ true
unfolding any_below
any_below-intro zero k w h e = absurd (omega arith)
any_below-intro (suc n) k w h e = ground (arith, any_below-intro n k w, ap w)

pub any_below_none : (n : ℕ) (w : Word) → ((k : ℕ) → k < n → w k ≡ false) → any_below n w ≡ false
unfolding any_below
any_below_none zero w h = refl
any_below_none (suc n) w h =
    rw (h n (omega arith), any_below_none n w (λ k p. h k (omega arith))) refl

pub any_below-elim : (n : ℕ) (w : Word) → any_below n w ≡ true → (k : ℕ) × (k < n) × (w k ≡ true)
unfolding any_below
any_below-elim zero w h = cc
any_below-elim (suc n) w h = elim (Bool-cases (w n)) [
  | inl e ↦ (n, omega arith, e)
  | inr e ↦ let (k, p, q) = any_below-elim n w (rw e at h) in (k, omega arith, q)
]

-- The bit of a word that `bitvector_get` reads for an index.
abbrev pub masked : Word → ℕ → Bool
masked w idx = nonzero (word_and w (get_bit_pos idx))

pub mask_self : (idx : ℕ) → get_bit_pos idx (idx % 32) ≡ true
mask_self idx = ground arith

-- The masks of two bits of a word have no bit in common.
pub masks_apart : (i j k : ℕ) → i % 32 ≢ j % 32 → (get_bit_pos i k && get_bit_pos j k) ≡ false
masks_apart i j k h = ground arith

pub masked-set : (w : Word) (i : ℕ) → masked (word_or w (get_bit_pos i)) i ≡ true
masked-set w i =
    any_below-intro 64 (i % 32) (word_and (word_or w (get_bit_pos i)) (get_bit_pos i)) (omega arith)
      (ground (arith, mask_self i))

pub masked-clear : (w : Word) (i : ℕ) → masked (word_and w (word_not (get_bit_pos i))) i ≡ false
masked-clear w i =
    any_below_none 64 (word_and (word_and w (word_not (get_bit_pos i))) (get_bit_pos i))
      (λ k p. cancel (w k) (get_bit_pos i k))
  where
    cancel : (a b : Bool) → ((a && not b) && b) ≡ false
    cancel a b = ground arith

module _ (w : Word) (i j : ℕ) (apart : i % 32 ≢ j % 32) where
  or_apart : (a b c : Bool) → (b && c) ≡ false → ((a || b) && c) ≡ (a && c)
  or_apart a b c h = ground arith

  and_apart : (a b c : Bool) → (b && c) ≡ false → ((a && not b) && c) ≡ (a && c)
  and_apart a b c h = ground arith

  pub masked-set_ne : masked (word_or w (get_bit_pos i)) j ≡ masked w j
  masked-set_ne =
      ap nonzero (
        fun_ext (λ k. or_apart (w k) (get_bit_pos i k) (get_bit_pos j k) (masks_apart i j k apart)))

  pub masked-clear_ne : masked (word_and w (word_not (get_bit_pos i))) j ≡ masked w j
  masked-clear_ne =
      ap nonzero (
        fun_ext
          (λ k. and_apart (w k) (get_bit_pos i k) (get_bit_pos j k) (masks_apart i j k apart)))

-- The bits above 31 repeat bit 31, as after a write of that bit.
abbrev pub IsExtended : Word → Type 0
IsExtended w = (k : ℕ) → 31 ≤ k → k < 64 → w k ≡ w 31

-- A bit below 31 is read alone.
pub masked_low : (w : Word) (i : ℕ) → i % 32 < 31 → masked w i ≡ w (i % 32)
masked_low w i h = elim (Bool-cases (w (i % 32))) [
  | inl e ↦ rw e (
      any_below-intro 64 (i % 32) (word_and w (get_bit_pos i)) (omega arith)
        (ground (arith, e, mask_self i)))
  | inr e ↦ rw e (any_below_none 64 (word_and w (get_bit_pos i)) (λ k p. other k e))
]
  where
    other : (k : ℕ) → w (i % 32) ≡ false → word_and w (get_bit_pos i) k ≡ false
    other k e = ground (arith, e, h, ap w)

-- Bit 31 is read with all above it.
pub masked_top : (w : Word) (i : ℕ) → i % 32 ≡ 31 → IsExtended w → masked w i ≡ w 31
masked_top w i h ext = elim (Bool-cases (w 31)) [
  | inl e ↦
      rw e (any_below-intro 64 31 (word_and w (get_bit_pos i)) (omega arith) (ground (arith, e, h)))
  | inr e ↦ rw e (any_below_none 64 (word_and w (get_bit_pos i)) (λ k p. other k p e))
]
  where
    other : (k : ℕ) → k < 64 → w 31 ≡ false → word_and w (get_bit_pos i) k ≡ false
    other k p e = ground (arith, e, h, ext k)

pub masked-xor :
    (w u : Word) (i : ℕ)
    → (i % 32 ≡ 31 → IsExtended w)
    → (i % 32 ≡ 31 → IsExtended u)
    → masked (word_xor w u) i ≡ xor (masked w i) (masked u i)
masked-xor w u i ew eu = elim (dec_lt (i % 32) 31) [
  | yes low ↦ rw (masked_low (word_xor w u) i low, masked_low w i low, masked_low u i low) refl
  | no top ↦
      let r : i % 32 ≡ 31 = omega arith in
      rw (masked_top (word_xor w u) i r (both r), masked_top w i r (ew r), masked_top u i r (eu r))
        refl
]
  where
    both : i % 32 ≡ 31 → IsExtended (word_xor w u)
    both r k p q = rw (ew r k p q, eu r k p q) refl
