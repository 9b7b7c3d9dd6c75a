-- ===== src/Learn/Measure.antt =====
-- The potential of the bases of cdnf.c, by which the rounds against an honest teacher are counted.
use dorder.Prelude.{
  ℕ, zero, suc, ◌+◌, ◌*◌, ◌≤◌, ◌<◌, ◌≡◌, refl, ap, fun_ext, Bool, true, false, not, ◌&&◌, ◌||◌, xor,
  List, [], ◌∷◌, ◌++◌, inl, inr, arith, Bool-cases, length, some, set, get_elem?,
}
use dorder.Bits.{Bits, value_of}
use dorder.CdnfFormula.{Monomial}
use dorder.CdnfFormula.Meaning.{holds_monomial, holds_disjunction, holds_disjunction-concat}
use dorder.Learn.Bases.{Basis, add_basis}
use dorder.Learn.Core.{add_support}
use dorder.Learn.Honest.{Point}
use dorder.Learn.Counting.{
  all_points, Occurs-all_points, count_if, count_if-le_length, count_if_mono, count_if-lt,
}

abbrev pub same : Bits → Bits → Bool
same [] [] = true
same [] (c ∷ w) = false
same (b ∷ v) [] = false
same (b ∷ v) (c ∷ w) = not (xor b c) && same v w

same_refl : (v : Bits) → same v v ≡ true
same_refl [] = refl
same_refl (true ∷ v) = same_refl v
same_refl (false ∷ v) = same_refl v

same→eq : (v w : Bits) → same v w ≡ true → v ≡ w
same→eq [] [] h = refl
same→eq [] (c ∷ w) h = cc
same→eq (b ∷ v) [] h = cc
same→eq (true ∷ v) (true ∷ w) h = ap (λ u. true ∷ u) (same→eq v w h)
same→eq (true ∷ v) (false ∷ w) h = cc
same→eq (false ∷ v) (true ∷ w) h = cc
same→eq (false ∷ v) (false ∷ w) h = ap (λ u. false ∷ u) (same→eq v w h)

-- `x` is the point of a basis.
abbrev pub is_origin : List Basis → Bits → Bool
is_origin [] x = false
is_origin (b ∷ bases) x = same x b.a || is_origin bases x

abbrev open_at : Basis → Bits → Bool
open_at b x = not (holds_disjunction (value_of x) b.h)

module _ (n : ℕ) where
  abbrev fresh : List Basis → ℕ
  fresh bases = count_if (λ x. not (is_origin bases x)) (all_points n)

  abbrev open_points : List Basis → ℕ
  open_points [] = 0
  open_points (b ∷ bases) = count_if (open_at b) (all_points n) + open_points bases

  -- It falls in every round.
  pub potential : List Basis → ℕ
  potential bases = fresh bases * suc (length (all_points n)) + open_points bases

  all_open :
      (a : Bits) (xs : List Bits)
      → count_if (open_at (record { h = []; t = []; a = a })) xs ≡ length xs
  all_open a [] = refl
  all_open a (x ∷ xs) = omega (arith, all_open a xs)

  open_points-concat :
      (bases : List Basis) (b : Basis)
      → open_points (bases ++ b ∷ []) ≡ open_points bases + count_if (open_at b) (all_points n)
  open_points-concat [] b = omega arith
  open_points-concat (c ∷ bases) b = omega (arith, open_points-concat bases b)

  is_origin-concat :
      (bases : List Basis) (b : Basis) (x : Bits)
      → is_origin (bases ++ b ∷ []) x ≡ (is_origin bases x || same x b.a)
  is_origin-concat [] b x = ground arith
  is_origin-concat (c ∷ bases) b x = ground (arith, is_origin-concat bases b x)

  -- A new basis of a point that was none.
  pub potential-add_basis :
      (bases : List Basis) (v : Bits)
      → Point n v
      → is_origin bases v ≡ false
      → potential (add_basis bases v) < potential bases
  unfolding potential add_basis
  potential-add_basis bases v p new =
      let b : Basis = record { h = []; t = []; a = v } in
      let falls =
        count_if-lt (λ x. not (is_origin (bases ++ b ∷ []) x)) (λ x. not (is_origin bases x))
          (λ x h. ground (arith, is_origin-concat bases b x)) v (all_points n)
          (ground (arith, is_origin-concat bases b v, same_refl v)) (ap not new)
          (Occurs-all_points n v p) in
      drop (fresh (bases ++ b ∷ [])) (fresh bases) (open_points bases) (length (all_points n)) falls
        (omega (arith, open_points-concat bases b, all_open v (all_points n)))
    where
      drop : (f f' t l : ℕ) {t' : ℕ} → f < f' → t' ≡ t + l → f * suc l + t' < f' * suc l + t
      drop f f' t l p e = grind arith

  -- The points that a basis leaves open after a monomial more.
  module _ (b : Basis) (w : Bits) (m : Monomial) where
    narrows : (x : Bits) → open_at (add_support b w m) x ≡ true → open_at b x ≡ true
    narrows x h = ground (arith, holds_disjunction-concat (value_of x) b.h m)

    open-le :
        count_if (open_at (add_support b w m)) (all_points n) ≤ count_if (open_at b) (all_points n)
    open-le = count_if_mono (open_at (add_support b w m)) (open_at b) narrows (all_points n)

    open-lt :
        (v : Bits)
        → Point n v
        → holds_disjunction (value_of v) b.h ≡ false
        → holds_monomial (value_of v) m ≡ true
        → count_if (open_at (add_support b w m)) (all_points n)
          < count_if (open_at b) (all_points n)
    open-lt v p was now =
        count_if-lt (open_at (add_support b w m)) (open_at b) narrows v (all_points n)
          (ground (arith, holds_disjunction-concat (value_of v) b.h m)) (ap not was)
          (Occurs-all_points n v p)

  is_origin-set :
      (bases : List Basis) (i : ℕ) (b c : Basis) (x : Bits)
      → get_elem? bases i ≡ some b
      → c.a ≡ b.a
      → is_origin (set bases i c) x ≡ is_origin bases x
  is_origin-set [] i b c x e h = refl
  is_origin-set (d ∷ bases) zero b c x e h = ground arith
  is_origin-set (d ∷ bases) (suc i) b c x e h = rw (is_origin-set bases i b c x e h)

  open_points-set :
      (bases : List Basis) (i : ℕ) (b c : Basis)
      → get_elem? bases i ≡ some b
      → open_points (set bases i c) + count_if (open_at b) (all_points n)
        ≡ open_points bases + count_if (open_at c) (all_points n)
  open_points-set [] i b c e = cc
  open_points-set (d ∷ bases) zero b c e = ground arith
  open_points-set (d ∷ bases) (suc i) b c e = omega (arith, open_points-set bases i b c e)

  fresh-set :
      (bases : List Basis) (i : ℕ) (b : Basis) (w : Bits) (m : Monomial)
      → get_elem? bases i ≡ some b
      → fresh (set bases i (add_support b w m)) ≡ fresh bases
  fresh-set bases i b w m e =
      ap (λ p. count_if p (all_points n))
        (fun_ext (λ x. ap not (is_origin-set bases i b (add_support b w m) x e refl)))

  module _ (bases : List Basis) (i : ℕ) (b : Basis) (w : Bits) (m : Monomial)
      (at : get_elem? bases i ≡ some b) where
    -- One monomial more at one basis.
    pub potential-le : potential (set bases i (add_support b w m)) ≤ potential bases
    unfolding potential
    potential-le =
        rw (fresh-set bases i b w m at)
          (omega (arith, open_points-set bases i b (add_support b w m) at, open-le b w m))

    -- One that is new at a point.
    pub potential-lt :
        (v : Bits)
        → Point n v
        → holds_disjunction (value_of v) b.h ≡ false
        → holds_monomial (value_of v) m ≡ true
        → potential (set bases i (add_support b w m)) < potential bases
    unfolding potential
    potential-lt v p was now =
        rw (fresh-set bases i b w m at) (
          omega
            (arith, open_points-set bases i b (add_support b w m) at, open-lt b w m v p was now))

  -- Of one basis.
  pub potential-first :
      (v : Bits)
      → potential (add_basis [] v) < suc (length (all_points n)) * suc (length (all_points n))
  unfolding potential add_basis
  potential-first v =
      let b : Basis = record { h = []; t = []; a = v } in
      bound (fresh (b ∷ [])) (count_if (open_at b) (all_points n)) (length (all_points n))
        (count_if-le_length (λ x. not (is_origin (b ∷ []) x)) (all_points n))
        (count_if-le_length (open_at b) (all_points n))
    where
      bound : (f t l : ℕ) → f ≤ l → t ≤ l → f * suc l + (t + 0) < suc l * suc l
      bound f t l p q = grind arith

-- A point at which a disjunction is true that is false at the basis is not the point of the basis.
pub is_origin-false :
    (v : Bits) (b : Basis) (bases : List Basis)
    → holds_disjunction (value_of b.a) b.h ≡ false
    → holds_disjunction (value_of v) b.h ≡ true
    → is_origin bases v ≡ false
    → is_origin (b ∷ bases) v ≡ false
is_origin-false v b bases off on rest = elim (Bool-cases (same v b.a)) [
  | inr ne ↦ rw (ne, rest)
  | inl e ↦ absurd (clash (rw (same→eq v b.a e) at on) off)
]
  where
    clash : {x : Bool} → x ≡ true → x ≡ false → ⊥
    clash p q = cc
