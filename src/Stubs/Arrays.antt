-- ===== src/Stubs/Arrays.antt =====
-- `boolarray_from_bitvector` and `bitvector_from_boolarray` of cdnfp_stubs.c. An OCaml array of
-- booleans is the list of its fields.
use dorder.Prelude.{
  ℕ, zero, suc, ◌+◌, ◌-◌, ◌≤◌, ◌<◌, ◌≡◌, refl, ap, sym, ◌∙◌, subst, Bool, false, List, Run, done,
  ◌>>=◌, ◌>>◌, assert, checked, arith, ltb, lt→ltb, length, get_elem?, set, replicate,
  length-replicate, length-set, get_or-set_self, get_or-set_ne, get_elem?-eq-get_or, get_or-ge,
}
use native.Mathlib.Decide.{ℕ_discrete, dec_lt}
use dorder.Bits.{Bits, value_of}
use dorder.Bits.Laws.{get-done, eq_of_bits, set-set, set-value_of}
use dorder.Bitvector.{Bitvector, bitvector_new, bitvector_get, bitvector_set, length_to_size}
use dorder.Bitvector.Words.{Word}
use dorder.Bitvector.Laws.{HoldsTo, Represents, bitvector_get-eq-get, bitvector_set-HoldsTo}
use dorder.Bitvector.Whole.{bitvector_new-HoldsTo}

-- The loop from the index `i` down to 1.
unfoldable pub store_loop : ℕ → Bitvector → List Bool → Run (List Bool)
store_loop zero bv result = done result
store_loop (suc i) bv result = do
  b ← bitvector_get bv (suc i)
  assert (ltb (suc i) (length result))
  store_loop i bv (set result (suc i) b)

unfoldable pub boolarray_from_bitvector : Bitvector → Run (List Bool)
unfolding store_loop
boolarray_from_bitvector bv = do
  assert (ltb 0 bv.len)
  store_loop (bv.len - 1) bv (set (replicate bv.len false) 0 false)

module _ (junk : ℕ → Word) where
  -- The loop from the index `i` on, with `n` fields left.
  unfoldable pub fill_loop : ℕ → ℕ → List Bool → Bitvector → Run Bitvector
  fill_loop i zero bary bv = done bv
  fill_loop i (suc n) bary bv = do
    b ← checked (get_elem? bary i)
    bv' ← bitvector_set bv i b
    fill_loop (suc i) n bary bv'

  unfoldable pub bitvector_from_boolarray : List Bool → Run Bitvector
  unfolding fill_loop
  bitvector_from_boolarray bary = do
    bv ← bitvector_new junk (length bary)
    bv' ← bitvector_set bv 0 false
    fill_loop 1 (length bary - 1) bary bv'

  fill_loop-done :
      (n i : ℕ) (xs : Bits) (bv : Bitvector)
      → 0 < i
      → i + n ≡ length xs
      → HoldsTo i bv (set xs 0 false)
      → bv.size ≡ length_to_size (length xs)
      → (bv' : Bitvector) × (fill_loop i n xs bv ≡ done bv')
        × Represents bv' (set xs 0 false)
        × (bv'.size ≡ length_to_size (length xs))
  unfolding fill_loop
  fill_loop-done zero i xs bv p e h s = (
    bv,
    refl,
    subst (λ k. HoldsTo k bv (set xs 0 false)) (omega (arith, length-set xs 0 false)) h,
    s,
  )
  fill_loop-done (suc n) i xs bv p e h s =
      let ys = set xs 0 false in
      let bit : value_of xs i ≡ value_of ys i =
        sym (get_or-set_ne xs 0 i false false (omega arith)) in
      let (w, q, r, size, _, _) =
        bitvector_set-HoldsTo bv ys i (value_of ys i) i h (omega (arith, length-set xs 0 false))
          (suc i) (λ j a b. omega (arith, a, b)) in
      let r' = subst (λ zs. HoldsTo (suc i) w zs) (set-value_of ys i) r in
      let (bv', q', r'', size') =
        fill_loop-done n (suc i) xs w (omega arith) (omega arith) r' (size ∙ s) in
      (bv', rw (get_elem?-eq-get_or xs i false (omega arith), bit, q) q', r'', size')

  -- An array that is not empty becomes a vector of its fields, but for bit 0, which is false.
  pub bitvector_from_boolarray-Represents :
      (xs : Bits)
      → 0 < length xs
      → (bv : Bitvector) × (bitvector_from_boolarray xs ≡ done bv)
        × Represents bv (set xs 0 false)
        × (bv.size ≡ length_to_size (length xs))
  unfolding bitvector_from_boolarray
  bitvector_from_boolarray-Represents xs p =
      let (r, new, holds, size, _) = bitvector_new-HoldsTo junk xs p in
      let (w, q, holds', size', _, _) =
        bitvector_set-HoldsTo r (set xs 0 false) 0 false 1 holds
          (omega (arith, length-set xs 0 false)) 1 (λ j a b. a) in
      let (bv, e, rep, fresh) =
        fill_loop-done (length xs - 1) 1 xs w (omega arith) (omega arith)
          (subst (λ zs. HoldsTo 1 w zs) (set-set xs 0 false false) holds') (size' ∙ size) in
      (bv, rw (new, q) e, rep, fresh)

store_loop-done :
    (i : ℕ) (bv : Bitvector) (xs r : Bits)
    → Represents bv xs
    → i < length xs
    → length r ≡ length xs
    → (r' : Bits) × (store_loop i bv r ≡ done r')
      × (length r' ≡ length xs)
      × ((k : ℕ) → 0 < k → k ≤ i → value_of r' k ≡ value_of xs k)
      × ((k : ℕ) → i < k → value_of r' k ≡ value_of r k)
      × (value_of r' 0 ≡ value_of r 0)
unfolding store_loop
store_loop-done zero bv xs r h p e = (r, refl, e, λ k a b. absurd (omega arith), λ k a. refl, refl)
store_loop-done (suc i) bv xs r h p e =
    let r₁ = set r (suc i) (value_of xs (suc i)) in
    let (r', q, len, low, high, first) =
      store_loop-done i bv xs r₁ h (omega arith) (length-set r (suc i) (value_of xs (suc i)) ∙ e) in
    (
      r',
      rw
          (
            bitvector_get-eq-get bv xs (suc i) h,
            get-done xs (suc i) p,
            lt→ltb (suc i) (length r) (omega arith),
          )
          q,
      len,
      λ k a b. elim (ℕ_discrete k (suc i)) [
        | yes at ↦ rw at (
            high (suc i) (omega arith)
            ∙ get_or-set_self r (suc i) (value_of xs (suc i)) false (omega arith))
        | no ne ↦ low k a (omega arith)
      ],
      λ k a.
          high k (omega arith)
          ∙ get_or-set_ne r (suc i) k (value_of xs (suc i)) false (omega arith),
      first ∙ get_or-set_ne r (suc i) 0 (value_of xs (suc i)) false (omega arith),
    )

-- A vector that is not empty becomes the array of its bits, but for field 0, which is false.
pub boolarray_from_bitvector-eq :
    (bv : Bitvector) (xs : Bits)
    → Represents bv xs
    → 0 < length xs
    → boolarray_from_bitvector bv ≡ done (set xs 0 false)
unfolding boolarray_from_bitvector
boolarray_from_bitvector-eq bv xs h p =
    let blank = set (replicate bv.len false) 0 false in
    let size : length blank ≡ length xs =
      length-set (replicate bv.len false) 0 false ∙ (length-replicate bv.len false ∙ h.size) in
    let (r, e, len, low, high, first) =
      store_loop-done (bv.len - 1) bv xs blank h (omega (arith, h.size)) size in
    let zero_bit : value_of r 0 ≡ false =
      first
      ∙ get_or-set_self (replicate bv.len false) 0 false false
          (omega (arith, h.size, length-replicate bv.len false)) in
    let same = eq_of_bits r (set xs 0 false) (len ∙ sym (length-set xs 0 false)) (λ k.
      elim (ℕ_discrete 0 k) [
        | yes at ↦ rw (← at) (zero_bit ∙ sym (get_or-set_self xs 0 false false p))
        | no ne ↦ elim (dec_lt k (length xs)) [
          | yes inside ↦
              low k (omega arith) (omega (arith, h.size))
              ∙ sym (get_or-set_ne xs 0 k false false ne)
          | no beyond ↦
              get_or-ge r k false (omega arith)
              ∙ sym (get_or-ge (set xs 0 false) k false (omega (arith, length-set xs 0 false)))
        ]
      ]) in
    rw (lt→ltb 0 bv.len (omega (arith, h.size))) (e ∙ ap done same)

-- An array with at least one field that is converted to a bit vector and back is the same but for
-- field 0, which is false.
pub boolarray_roundtrip :
    (junk : ℕ → Word) (xs : Bits)
    → 0 < length xs
    → (bitvector_from_boolarray junk xs >>= boolarray_from_bitvector) ≡ done (set xs 0 false)
boolarray_roundtrip junk xs p =
    let (bv, e, rep, _) = bitvector_from_boolarray-Represents junk xs p in
    rw e (
      boolarray_from_bitvector-eq bv (set xs 0 false) rep (omega (arith, length-set xs 0 false))
      ∙ ap done (set-set xs 0 false false))
