-- ===== src/Bits/Laws.antt =====
-- Laws of the abstract bit vectors.
use dorder.Prelude.{
  ℕ, zero, suc, ◌<◌, ◌≡◌, refl, ap, Bool, true, false, xor, [], ◌∷◌, done, arith, length, set,
  get_elem?-eq-get_or, get_or-set_self, lt→ltb, ◌≢◌, get_or-set_ne,
}
use dorder.Bits.{Bits, value_of, get, put, xor_bits, xor_of, all_zeros}

pub get-done : (bv : Bits) (i : ℕ) → i < length bv → get bv i ≡ done (value_of bv i)
get-done bv i h = rw (get_elem?-eq-get_or bv i false h)

pub put-done : (bv : Bits) (i : ℕ) (b : Bool) → i < length bv → put bv i b ≡ done (set bv i b)
put-done bv i b h = rw (lt→ltb i (length bv) h)

pub length-xor_bits : (v w : Bits) → length v ≡ length w → length (xor_bits v w) ≡ length v
length-xor_bits [] w h = refl
length-xor_bits (a ∷ v) [] h = absurd (omega arith)
length-xor_bits (a ∷ v) (b ∷ w) h = ap suc (length-xor_bits v w (omega arith))

pub value_of-xor_bits :
    (v w : Bits) (i : ℕ)
    → length v ≡ length w
    → value_of (xor_bits v w) i ≡ xor (value_of v i) (value_of w i)
value_of-xor_bits [] [] i h = refl
value_of-xor_bits [] (b ∷ w) i h = absurd (omega arith)
value_of-xor_bits (a ∷ v) [] i h = absurd (omega arith)
value_of-xor_bits (a ∷ v) (b ∷ w) zero h = refl
value_of-xor_bits (a ∷ v) (b ∷ w) (suc i) h = value_of-xor_bits v w i (omega arith)

pub xor_of-done : (v w : Bits) → length v ≡ length w → xor_of v w ≡ done (xor_bits v w)
xor_of-done v w h = ground (arith, h)

-- A set bit is seen, and without one every bit reads as zero.
pub all_zeros-false :
    (v : Bits) → all_zeros v ≡ false → (i : ℕ) × (i < length v) × (value_of v i ≡ true)
all_zeros-false [] h = cc
all_zeros-false (true ∷ v) h = (0, omega arith, refl)
all_zeros-false (false ∷ v) h = let (i, p, q) = all_zeros-false v h in (suc i, omega arith, q)

pub all_zeros-true : (v : Bits) (i : ℕ) → all_zeros v ≡ true → value_of v i ≡ false
all_zeros-true [] i h = refl
all_zeros-true (true ∷ v) i h = cc
all_zeros-true (false ∷ v) zero h = refl
all_zeros-true (false ∷ v) (suc i) h = all_zeros-true v i h

pub set-value_of : (v : Bits) (i : ℕ) → set v i (value_of v i) ≡ v
set-value_of [] i = refl
set-value_of (b ∷ v) zero = refl
set-value_of (b ∷ v) (suc i) = ap (λ w. b ∷ w) (set-value_of v i)

pub set-set : (v : Bits) (i : ℕ) (b c : Bool) → set (set v i b) i c ≡ set v i c
set-set [] i b c = refl
set-set (x ∷ v) zero b c = refl
set-set (x ∷ v) (suc i) b c = ap (λ w. x ∷ w) (set-set v i b c)

-- Bit vectors of one length with the same bits are equal.
pub eq_of_bits :
    (v w : Bits) → length v ≡ length w → ((i : ℕ) → value_of v i ≡ value_of w i) → v ≡ w
eq_of_bits [] [] h e = refl
eq_of_bits [] (b ∷ w) h e = absurd (omega arith)
eq_of_bits (a ∷ v) [] h e = absurd (omega arith)
eq_of_bits (a ∷ v) (b ∷ w) h e =
    let rest = eq_of_bits v w (omega arith) (λ i. e (suc i)) in let head = e 0 in cc (rest, head)

-- `value_of` after a write, at every index.
pub value_of-set :
    (v : Bits) (i j : ℕ) (b : Bool)
    → i < length v
    → (i ≡ j → value_of (set v i b) j ≡ b) × (i ≢ j → value_of (set v i b) j ≡ value_of v j)
value_of-set v i j b h =
    (λ e. ground (arith, get_or-set_self v i b false, e), λ ne. get_or-set_ne v i j b false ne)
