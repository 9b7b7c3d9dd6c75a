-- ===== src/BoolFormula/Decimal.antt =====
-- What `%ld` of the C library writes for a literal.
use dorder.Prelude.{ℕ, ◌≤◌, ◌<◌, ◌≡◌, refl, List, [], ◌∷◌, ◌++◌, arith, length, All, ◌⊎◌, inl, inr}
use dorder.BoolFormula.{Lit}

-- A space. A text in front of one determines the element.
abbrev pub IsUnique : {A : Type 0} → (A → List ℕ) → Type 0
IsUnique {A} pr =
    (a b : A) (r r' : List ℕ) → pr a ++ (b' ' ∷ r) ≡ pr b ++ (b' ' ∷ r') → (a ≡ b) × (r ≡ r')

-- No text begins with this byte.
abbrev pub StartsNot : {A : Type 0} → (A → List ℕ) → ℕ → Type 0
StartsNot {A} pr m = (a : A) (r r' : List ℕ) → pr a ++ r ≡ m ∷ r' → ⊥

pub head_eq : (a b : ℕ) (x y : List ℕ) → a ∷ x ≡ b ∷ y → a ≡ b
head_eq a b x y e = cc

pub tail_eq : {A : Type 0} (a b : A) (x y : List A) → a ∷ x ≡ b ∷ y → x ≡ y
tail_eq a b x y e = cc

-- What `%ld` writes, as documented: digits, with a sign in front of a negative number.
pub record IsDecimal (decimal : Lit → List ℕ) : Type 0 where
  pub digits : (l : Lit) → All (λ c. (c ≡ b'-') ⊎ ((b'0' ≤ c) × (c ≤ b'9'))) (decimal l)
  pub some_digit : (l : Lit) → 0 < length (decimal l)
  pub injective : (l k : Lit) → decimal l ≡ decimal k → l ≡ k

module _ (decimal : Lit → List ℕ) (is_decimal : IsDecimal decimal) where
  -- A symbol is no space and no letter.
  symbol_bounds : (c : ℕ) → (c ≡ b'-') ⊎ ((b'0' ≤ c) × (c ≤ b'9')) → (b' ' < c) × (c ≤ b'9')
  symbol_bounds c (inl e) = (omega arith, omega arith)
  symbol_bounds c (inr h) = (omega arith, omega arith)

  -- Two texts of symbols, each in front of a space.
  split_at_space :
      (x y r r' : List ℕ)
      → All (λ c. (c ≡ b'-') ⊎ ((b'0' ≤ c) × (c ≤ b'9'))) x
      → All (λ c. (c ≡ b'-') ⊎ ((b'0' ≤ c) × (c ≤ b'9'))) y
      → x ++ (b' ' ∷ r) ≡ y ++ (b' ' ∷ r')
      → (x ≡ y) × (r ≡ r')
  split_at_space [] [] r r' h k e = (refl, tail_eq b' ' b' ' r r' e)
  split_at_space [] (d ∷ y) r r' h k e =
      let q = head_eq b' ' d r (y ++ (b' ' ∷ r')) e in
      absurd (omega (arith, q, (symbol_bounds d k.0).0))
  split_at_space (c ∷ x) [] r r' h k e =
      let q = head_eq c b' ' (x ++ (b' ' ∷ r)) r' e in
      absurd (omega (arith, q, (symbol_bounds c h.0).0))
  split_at_space (c ∷ x) (d ∷ y) r r' h k e =
      let q = head_eq c d (x ++ (b' ' ∷ r)) (y ++ (b' ' ∷ r')) e in
      let (p, t) =
        split_at_space x y r r' h.1 k.1 (tail_eq c d (x ++ (b' ' ∷ r)) (y ++ (b' ' ∷ r')) e) in
      (cc, t)

  pub decimal-IsUnique : IsUnique decimal
  decimal-IsUnique a b r r' e =
      let (p, t) =
        split_at_space (decimal a) (decimal b) r r' (is_decimal.digits a) (is_decimal.digits b) e in
      (is_decimal.injective a b p, t)

  -- It begins with no byte above the digits.
  pub decimal_starts : (m : ℕ) → b'9' < m → StartsNot decimal m
  decimal_starts m above l r r' e =
      starts (decimal l) (is_decimal.digits l) (is_decimal.some_digit l) e
    where
      starts :
          (x : List ℕ)
          → All (λ c. (c ≡ b'-') ⊎ ((b'0' ≤ c) × (c ≤ b'9'))) x
          → 0 < length x
          → x ++ r ≡ m ∷ r'
          → ⊥
      starts [] h p q = omega arith
      starts (c ∷ x) h p q =
          let k = head_eq c m (x ++ r) r' q in omega (arith, k, (symbol_bounds c h.0).1)
