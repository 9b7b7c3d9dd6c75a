-- ===== src/Learn/Walk/Inv.antt =====
-- The loop of `walk` in cdnf.c: its invariant, and where it ends.
use dorder.Prelude.{
  ℕ, zero, suc, ◌+◌, ◌-◌, ◌*◌, ◌≤◌, ◌<◌, ◌≡◌, refl, ap, ◌∙◌, Bool, true, false, not, xor, [], ◌∷◌,
  done, ◌⊎◌, inl, inr, arith, Bool-cases, length, length-set, get_or-set_self, get_or-set_ne, set,
  if◌then◌else◌, eq→==,
}
use native.Mathlib.Decide.{ℕ_discrete}
use dorder.Bits.{Bits, value_of, get}
use dorder.Bits.Laws.{get-done, put-done, set-value_of, set-set}
use dorder.Learn.Walk.{walk_step, walk_loop, walk_fuel, walk}

-- The number of bits in which two vectors differ.
abbrev dist : Bits → Bits → ℕ
dist [] a = 0
dist (b ∷ v) [] = 0
dist (b ∷ v) (c ∷ a) = (if xor b c then 1 else 0) + dist v a

dist-le : (v a : Bits) → dist v a ≤ length a
dist-le [] a = omega arith
dist-le (b ∷ v) [] = omega arith
dist-le (b ∷ v) (c ∷ a) = ground (arith, dist-le v a)

dist-flip :
    (v a : Bits) (i : ℕ)
    → i < length v
    → length v ≡ length a
    → xor (value_of v i) (value_of a i) ≡ true
    → suc (dist (set v i (not (value_of v i))) a) ≡ dist v a
dist-flip [] a i h e d = absurd (omega arith)
dist-flip (b ∷ v) [] i h e d = absurd (omega arith)
dist-flip (true ∷ v) (true ∷ a) zero h e d = cc
dist-flip (true ∷ v) (false ∷ a) zero h e d = omega arith
dist-flip (false ∷ v) (true ∷ a) zero h e d = omega arith
dist-flip (false ∷ v) (false ∷ a) zero h e d = cc
dist-flip (b ∷ v) (c ∷ a) (suc i) h e d =
    omega (arith, dist-flip v a i (omega arith) (omega arith) d)

module _ (f : Bits → Bool) (a : Bits) where
  module _ (v : Bits) (i : ℕ) (len : length v ≡ length a) (inside : i < length a) where
    reads : (get v i ≡ done (value_of v i)) × (get a i ≡ done (value_of a i))
    reads = (get-done v i (omega arith), get-done a i inside)

    step_same : xor (value_of v i) (value_of a i) ≡ false → walk_step f a i v ≡ done (v, i - 1)
    unfolding walk_step
    step_same e = rw (reads.0, reads.1, e) refl

    step_flip :
        xor (value_of v i) (value_of a i) ≡ true
        → f (set v i (not (value_of v i))) ≡ true
        → walk_step f a i v ≡ done (set v i (not (value_of v i)), length a - 1)
    unfolding walk_step
    step_flip e m =
        rw (reads.0, reads.1, e, put-done v i (not (value_of v i)) (omega arith), m) refl

    step_stay :
        xor (value_of v i) (value_of a i) ≡ true
        → f (set v i (not (value_of v i))) ≡ false
        → walk_step f a i v ≡ done (v, i - 1)
    unfolding walk_step
    step_stay e m =
        let flipped = set v i (not (value_of v i)) in
        rw
          (
            reads.0,
            reads.1,
            e,
            put-done v i (not (value_of v i)) (omega arith),
            m,
            put-done flipped i (value_of v i) (omega (arith, length-set v i (not (value_of v i)))),
            set-set v i (not (value_of v i)) (value_of v i),
            set-value_of v i,
          )
          refl

  -- `v` is a member unless it is `start`, and each of its bits is one of `start` or one of `a`.
  pub record Between (start v : Bits) : Type 0 where
    pub size : length v ≡ length a
    pub member : (f v ≡ true) ⊎ (v ≡ start)
    pub bits : (k : ℕ) → (value_of v k ≡ value_of a k) ⊎ (value_of v k ≡ value_of start k)

  -- Above `i` no single bit of `v` can be turned to that of `a`.
  abbrev pub Settled : ℕ → Bits → Type 0
  Settled i v =
      (k : ℕ)
      → i < k
      → k < length a
      → xor (value_of v k) (value_of a k) ≡ true
      → f (set v k (not (value_of v k))) ≡ false

  -- What `walk` returns, whatever it starts from.
  pub record Walked (start v : Bits) : Type 0 where
    pub between : Between start v
    pub minimal : Settled 0 v

  flip_bit : (b c : Bool) → xor b c ≡ true → not b ≡ c
  flip_bit b c h = ground arith

  Between-flip :
      (start v : Bits) (i : ℕ)
      → Between start v
      → i < length a
      → xor (value_of v i) (value_of a i) ≡ true
      → f (set v i (not (value_of v i))) ≡ true
      → Between start (set v i (not (value_of v i)))
  Between-flip start v i h inside d m = record {
    size = length-set v i (not (value_of v i)) ∙ h.size;
    member = inl m;
    bits = λ k. elim (ℕ_discrete i k) [
      | yes e ↦ inl (
          rw (← e) (
            get_or-set_self v i (not (value_of v i)) false (omega (arith, h.size))
            ∙ flip_bit (value_of v i) (value_of a i) d))
      | no ne ↦ rw (get_or-set_ne v i k (not (value_of v i)) false ne) (h.bits k)
    ];
  }

  Settled-extend :
      (v : Bits) (i : ℕ)
      → Settled (suc i) v
      → (xor (value_of v (suc i)) (value_of a (suc i)) ≡ true
          → f (set v (suc i) (not (value_of v (suc i)))) ≡ false)
      → Settled i v
  Settled-extend v i s here k p q d = elim (ℕ_discrete (suc i) k) [
    | yes e ↦ rw (← e) (here (rw e d))
    | no ne ↦ s k (omega arith) q d
  ]

  loop-Walked :
      (fuel i : ℕ) (start v : Bits)
      → i < length a
      → Between start v
      → Settled i v
      → dist v a * length a + i < fuel
      → (w : Bits) × (walk_loop f a fuel i v ≡ done w) × Walked start w
  unfolding walk_loop
  loop-Walked zero i start v inside h s enough = absurd (omega arith)
  loop-Walked (suc fuel) zero start v inside h s enough =
      (v, refl, record { between = h; minimal = s })
  loop-Walked (suc fuel) (suc i) start v inside h s enough =
      elim (Bool-cases (xor (value_of v (suc i)) (value_of a (suc i)))) [
        | inr same ↦
            let (w, e, r) =
              loop-Walked fuel i start v (omega arith) h (Settled-extend v i s (λ d. cc))
                (omega arith) in
            (w, rw (step_same v (suc i) h.size inside same, pred_suc i) e, r)
        | inl d ↦ elim (Bool-cases (f (set v (suc i) (not (value_of v (suc i)))))) [
          | inr stay ↦
              let (w, e, r) =
                loop-Walked fuel i start v (omega arith) h (Settled-extend v i s (λ _. stay))
                  (omega arith) in
              (w, rw (step_stay v (suc i) h.size inside d stay, pred_suc i) e, r)
          | inl m ↦
              let flipped = set v (suc i) (not (value_of v (suc i))) in
              let falls = dist-flip v a (suc i) (omega (arith, h.size)) h.size d in
              let (w, e, r) =
                loop-Walked fuel (length a - 1) start flipped (omega arith)
                  (Between-flip start v (suc i) h inside d m) (λ k p q _. absurd (omega arith))
                  (omega (arith, ap (λ (t : ℕ). t * length a) falls)) in
              (w, rw (step_flip v (suc i) h.size inside d m) e, r)
        ]
      ]
    where
      pred_suc : (n : ℕ) → suc n - 1 ≡ n
      pred_suc n = omega arith

-- For two vectors of one length that is not 0, `walk` ends without a failed assertion at a vector
-- between `v` and `a` that is a member unless it is `v`, and of which no bit from 1 on can be
-- turned to that of `a`.
pub walk-Walked :
    (f : Bits → Bool) (a v : Bits)
    → 0 < length a
    → length v ≡ length a
    → (w : Bits) × (walk f a v ≡ done w) × Walked f a v w
unfolding walk
walk-Walked f [] v p len = absurd (omega arith)
walk-Walked f (c ∷ a) v p len =
    let (w, e, r) =
      loop-Walked f (c ∷ a) (walk_fuel f (c ∷ a)) (length a) v v (omega arith)
        (record { size = len; member = inr refl; bits = λ k. inr refl })
        (λ k p q _. absurd (omega arith))
        (enough (dist v (c ∷ a)) (suc (length a)) (length a) (dist-le v (c ∷ a)) (omega arith)) in
    (w, rw (eq→== (length v) (suc (length a)) len) e, r)
  where
    enough : (d n k : ℕ) → d ≤ n → k < n → d * n + k < suc n * suc n
    enough d n k h p = grind arith
