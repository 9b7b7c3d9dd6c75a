-- ===== src/Bitvector/Print.antt =====
-- `bitvector_print` of bitvector.c. What it writes to the standard error is its result, as a list of bytes.
use dorder.Prelude.{
  ℕ, zero, suc, ◌+◌, ◌-◌, ◌<◌, ◌≡◌, refl, ap, ◌∙◌, Bool, false, not, List, [], ◌∷◌, Run, done,
  ◌>>=◌, ◌>>◌, assert, arith, ◌==◌, length, if◌then◌else◌, suc-==-zero,
}
use dorder.Bits.{Bits, value_of}
use dorder.Bits.Laws.{get-done}
use dorder.Bitvector.{Bitvector, bitvector_get}
use dorder.Bitvector.Laws.{Represents, bitvector_get-eq-get}

abbrev pub digit : Bool → ℕ
digit b = if b then b'1' else b'0'

-- The loop from the index `i` on, with `n` bits left, and the end of the line.
unfoldable pub print_loop : ℕ → ℕ → Bitvector → Run (List ℕ)
print_loop i zero bv = done (b'\n' ∷ [])
print_loop i (suc n) bv = do
  b ← bitvector_get bv (bv.len - i - 1)
  rest ← print_loop (suc i) n bv
  done (digit b ∷ rest)

unfoldable pub bitvector_print : Bitvector → Run (List ℕ)
unfolding print_loop
bitvector_print bv = do assert (not (bv.len == 0)); print_loop 0 bv.len bv

-- The digits of the first `n` bits, the last of them first, in front of a text.
abbrev pub digits : ℕ → Bits → List ℕ → List ℕ
digits zero xs text = text
digits (suc n) xs text = digit (value_of xs n) ∷ digits n xs text

print_loop-done :
    (n i : ℕ) (bv : Bitvector) (xs : Bits)
    → Represents bv xs
    → i + n ≡ length xs
    → print_loop i n bv ≡ done (digits n xs (b'\n' ∷ []))
unfolding print_loop
print_loop-done zero i bv xs r e = refl
print_loop-done (suc n) i bv xs r e =
    rw
      (
        last_index,
        bitvector_get-eq-get bv xs n r,
        get-done xs n (omega arith),
        print_loop-done n (suc i) bv xs r (omega arith),
      )
      refl
  where
    last_index : bv.len - i - 1 ≡ n
    last_index = omega (arith, r.size)

-- On a vector that is not empty and represents xs, bitvector_print ends without a failed assertion
-- and writes the digits of all bits, that of the last bit first, and the end of the line.
pub bitvector_print-digits :
    (bv : Bitvector) (xs : Bits)
    → Represents bv xs
    → 0 < length xs
    → bitvector_print bv ≡ done (digits (length xs) xs (b'\n' ∷ []))
unfolding bitvector_print
bitvector_print-digits bv xs r p =
    rw (eq_false bv.len (omega (arith, r.size)))
      (ap (λ n. print_loop 0 n bv) r.size ∙ print_loop-done (length xs) 0 bv xs r (omega arith))
  where
    eq_false : (n : ℕ) → 0 < n → (n == 0) ≡ false
    eq_false zero h = absurd (omega arith)
    eq_false (suc n) h = suc-==-zero n
