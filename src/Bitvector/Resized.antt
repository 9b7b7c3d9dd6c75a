-- ===== src/Bitvector/Resized.antt =====
-- `bitvector_copy` of bitvector.c after `bitvector_resize`, which leaves `size` as it was.
use dorder.Prelude.{
  ℕ, ◌/◌, ◌≤◌, ◌<◌, ◌≡◌, refl, sym, ap, ◌∙◌, subst, Bool, true, false, Run, done, failed,
  out_of_fuel, arith, ltb, lt→ltb, le→ltb, le→leb, length, replicate, length-replicate,
}
use native.Mathlib.Decide.{dec_lt}
use dorder.Bits.{Bits}
use dorder.Bitvector.{Bitvector, bitvector_new, length_to_size, bitvector_copy, bitvector_resize}
use dorder.Bitvector.Words.{Word}
use dorder.Bitvector.Whole.{bitvector_new-HoldsTo}
use dorder.Bitvector.Zeros.{copy_loop-done}
use dorder.Bitvector.Xor.{bitvector_copy-failed}

-- An assertion failed.
abbrev pub is_failed {ℓ} : {A : Type ℓ} → Run A → Bool
is_failed (done x) = false
is_failed failed = true
is_failed out_of_fuel = false

module _ (junk : ℕ → Word) where
  -- With room for the words of a new vector a copy is made.
  bitvector_copy-done :
      (bv : Bitvector)
      → 0 < bv.len
      → length_to_size bv.len ≤ bv.size
      → length_to_size bv.len ≤ length bv.buffer
      → (bv' : Bitvector) × (bitvector_copy junk bv ≡ done bv')
  unfolding bitvector_copy
  bitvector_copy-done bv p h room = made (replicate bv.len false) (length-replicate bv.len false)
    where
      made :
          (xs : Bits) → length xs ≡ bv.len → (bv' : Bitvector) × (bitvector_copy junk bv ≡ done bv')
      made xs e =
          let (r, new, _, size, words) = bitvector_new-HoldsTo junk xs (omega arith) in
          let (buffer, run, _, _, _) =
            copy_loop-done junk r.size 0 bv r.buffer (omega (arith, ap length_to_size e))
              (omega arith) in
          (
            record r { buffer = buffer },
            rw
                (
                  subst (λ n. bitvector_new junk n ≡ done r) e new,
                  le→leb r.size bv.size (omega (arith, ap length_to_size e)),
                  run,
                )
                refl,
          )

  -- Let a vector that is not empty have the size of a new one and so many words. After bitvector_resize to
  -- at least its length, bitvector_copy fails an assertion exactly if the new length passes a multiple of
  -- 32 that the old one did not.
  pub bitvector_copy-bitvector_resize :
      (bv : Bitvector) (m : ℕ)
      → 0 < bv.len
      → bv.size ≡ length_to_size bv.len
      → bv.size ≤ length bv.buffer
      → bv.len ≤ m
      → is_failed (bitvector_copy junk (bitvector_resize junk bv m)) ≡ ltb (bv.len / 32) (m / 32)
  unfolding bitvector_resize
  bitvector_copy-bitvector_resize bv m p size room le = elim (dec_lt (bv.len / 32) (m / 32)) [
    | yes h ↦
        ap is_failed
          (bitvector_copy-failed junk (bitvector_resize junk bv m) (omega arith) (omega arith))
        ∙ sym (lt→ltb (bv.len / 32) (m / 32) h)
    | no h ↦
        let same : ltb bv.size (length_to_size m) ≡ false =
          le→ltb bv.size (length_to_size m) (omega arith) in
        let (bv', run) =
          bitvector_copy-done (bitvector_resize junk bv m) (omega arith) (omega arith)
            (rw same (omega arith)) in
        ap is_failed run ∙ sym (le→ltb (bv.len / 32) (m / 32) (omega arith))
  ]
