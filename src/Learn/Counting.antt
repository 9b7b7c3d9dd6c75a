-- ===== src/Learn/Counting.antt =====
-- The assignments to the variables that cdnf.c learns about, and how many of them pass a test.
use dorder.Prelude.{
  ℕ, zero, suc, ◌+◌, ◌^◌, ◌≤◌, ◌<◌, ◌≡◌, refl, ap, ◌∙◌, Bool, true, false, List, [], ◌∷◌, ◌++◌, map,
  inl, inr, arith, length, length-append, length-map, All, All-append, All-map, Occurs,
  Occurs-append_left, Occurs-append_right, Occurs-map, if◌then◌else◌,
}
use native.Mathlib.Nat.{pow-suc}
use dorder.Bits.{Bits}
use dorder.Learn.Honest.{Point}

-- All lists of `n` bits, and all points.
abbrev all_bits : ℕ → List Bits
all_bits zero = [] ∷ []
all_bits (suc n) = map (λ w. false ∷ w) (all_bits n) ++ map (λ w. true ∷ w) (all_bits n)

abbrev pub all_points : ℕ → List Bits
all_points n = map (λ w. false ∷ w) (all_bits n)

length-all_bits : (n : ℕ) → length (all_bits n) ≡ 2 ^ n
length-all_bits zero = refl
length-all_bits (suc n) = omega (
  arith,
  length-append (map (λ w. false ∷ w) (all_bits n)) (map (λ w. true ∷ w) (all_bits n)),
  length-map (all_bits n) (λ (w : Bits). false ∷ w),
  length-map (all_bits n) (λ (w : Bits). true ∷ w),
  length-all_bits n,
  pow_suc n,
)
  where
    pow_suc : (k : ℕ) → 2 ^ suc k ≡ 2 ^ k + 2 ^ k
    pow_suc k = rw (pow-suc 2 k) (omega arith)

pub length-all_points : (n : ℕ) → length (all_points n) ≡ 2 ^ n
length-all_points n = length-map (all_bits n) (λ (w : Bits). false ∷ w) ∙ length-all_bits n

Occurs-all_bits : (n : ℕ) (w : Bits) → length w ≡ n → Occurs w (all_bits n)
Occurs-all_bits zero [] h = inl refl
Occurs-all_bits zero (b ∷ w) h = absurd (omega arith)
Occurs-all_bits (suc n) [] h = absurd (omega arith)
Occurs-all_bits (suc n) (false ∷ w) h =
    Occurs-append_left (false ∷ w) (map (λ w. false ∷ w) (all_bits n))
      (map (λ w. true ∷ w) (all_bits n))
      (Occurs-map (λ w. false ∷ w) w (all_bits n) (Occurs-all_bits n w (omega arith)))
Occurs-all_bits (suc n) (true ∷ w) h =
    Occurs-append_right (true ∷ w) (map (λ w. false ∷ w) (all_bits n))
      (map (λ w. true ∷ w) (all_bits n))
      (Occurs-map (λ w. true ∷ w) w (all_bits n) (Occurs-all_bits n w (omega arith)))

pub Occurs-all_points : (n : ℕ) (x : Bits) → Point n x → Occurs x (all_points n)
Occurs-all_points n [] p = absurd (omega (arith, p.0))
Occurs-all_points n (true ∷ x) p = cc (p.1)
Occurs-all_points n (false ∷ x) p =
    Occurs-map (λ w. false ∷ w) x (all_bits n) (Occurs-all_bits n x (omega (arith, p.0)))

all_bits-length : (n : ℕ) → All (λ w. length w ≡ n) (all_bits n)
all_bits-length zero = (refl, tt)
all_bits-length (suc n) =
    All-append (λ w. length w ≡ suc n) (map (λ w. false ∷ w) (all_bits n))
      (map (λ w. true ∷ w) (all_bits n))
      (All-map (λ w. length w ≡ n) (λ w. length w ≡ suc n) (λ w. false ∷ w) (λ w e. ap suc e)
        (all_bits n) (all_bits-length n))
      (All-map (λ w. length w ≡ n) (λ w. length w ≡ suc n) (λ w. true ∷ w) (λ w e. ap suc e)
        (all_bits n) (all_bits-length n))

pub all_points-Point : (n : ℕ) → All (Point n) (all_points n)
all_points-Point n =
    All-map (λ w. length w ≡ n) (Point n) (λ w. false ∷ w) (λ w e. (ap suc e, refl)) (all_bits n)
      (all_bits-length n)

-- How many elements pass a test.
abbrev pub count_if : (Bits → Bool) → List Bits → ℕ
count_if p [] = 0
count_if p (x ∷ xs) = (if p x then 1 else 0) + count_if p xs

pub count_if-le_length : (p : Bits → Bool) (xs : List Bits) → count_if p xs ≤ length xs
count_if-le_length p [] = omega arith
count_if-le_length p (x ∷ xs) = ground (arith, count_if-le_length p xs)

module _ (p q : Bits → Bool) (imp : (x : Bits) → p x ≡ true → q x ≡ true) where
  pub count_if_mono : (xs : List Bits) → count_if p xs ≤ count_if q xs
  count_if_mono [] = omega arith
  count_if_mono (x ∷ xs) = ground (arith, imp x, count_if_mono xs)

  pub count_if-lt :
      (v : Bits) (xs : List Bits)
      → p v ≡ false
      → q v ≡ true
      → Occurs v xs
      → count_if p xs < count_if q xs
  count_if-lt v [] a b o = absurd o
  count_if-lt v (x ∷ xs) a b (inl e) = ground (arith, count_if_mono xs, ap p e, ap q e)
  count_if-lt v (x ∷ xs) a b (inr o) = ground (arith, imp x, count_if-lt v xs a b o)
