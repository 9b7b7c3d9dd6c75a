-- ===== src/Vector/Growth.antt =====
-- `length_to_size` of vector.c: its loop and the size that it ends with.
use dorder.Prelude.{
  ℕ, zero, suc, ◌-◌, ◌*◌, ◌^◌, ◌≤◌, ◌<◌, ◌≡◌, ◌∙◌, refl, ◌⊎◌, inl, inr, done, arith, lt→ltb, le→ltb,
  le→leb,
}
use native.Mathlib.Decide.{dec_lt}
use dorder.Vector.{grow, size_loop, length_to_size}

-- Below 2^62 the product does not wrap around, and the size grows.
grow_small : (r : ℕ) → 8 ≤ r → r < 2 ^ 62 → (r < grow r) × (2 * grow r ≤ 3 * r)
grow_small r h p = omega arith

loop_step :
    (fuel r length : ℕ)
    → r < length
    → size_loop (suc fuel) r length ≡ size_loop fuel (grow r) length
unfolding size_loop
loop_step fuel r length h = rw (lt→ltb r length h, size_loop) refl

loop_stop : (fuel r length : ℕ) → length ≤ r → size_loop (suc fuel) r length ≡ done r
unfolding size_loop
loop_stop fuel r length h = rw (le→ltb r length h, size_loop) refl

size_loop-done :
    (fuel r length : ℕ)
    → 8 ≤ r
    → length ≤ 2 ^ 62
    → length - r < fuel
    → (r ≡ 8) ⊎ (2 * r < 3 * length)
    → (n : ℕ) × (size_loop fuel r length ≡ done n)
      × (length ≤ n)
      × (8 ≤ n)
      × ((n ≡ 8) ⊎ (2 * n < 3 * length))
size_loop-done zero r length h p enough tight = absurd (omega arith)
size_loop-done (suc fuel) r length h p enough tight = elim (dec_lt r length) [
  | no stop ↦ (r, loop_stop fuel r length (omega arith), omega arith, h, tight)
  | yes go ↦
      let (up, bound) = grow_small r h (omega arith) in
      let (n, e, big, least, close) =
        size_loop-done fuel (grow r) length (omega arith) p (omega arith) (inr (omega arith)) in
      (n, loop_step fuel r length go ∙ e, big, least, close)
]

-- For a length up to 2^62 the loop ends and the assertion holds: the size is at least the length
-- and at least 8, and it is 8 or less than one and a half times the length.
pub length_to_size_bounds :
    (length : ℕ)
    → length ≤ 2 ^ 62
    → (n : ℕ) × (length_to_size length ≡ done n)
      × (length ≤ n)
      × (8 ≤ n)
      × ((n ≡ 8) ⊎ (2 * n < 3 * length))
unfolding length_to_size
length_to_size_bounds length p =
    let (n, e, big, least, close) =
      size_loop-done (suc length) 8 length (omega arith) p (omega arith) (inl refl) in
    (n, rw (e, le→leb length n big) refl, big, least, close)
