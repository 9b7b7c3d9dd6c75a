-- ===== src/Learn/Walk.antt =====
-- `walk` of cdnf.c: from v toward a, while membership holds.
pub mod Inv
use dorder.Prelude.{
  ℕ, zero, suc, ◌+◌, ◌-◌, ◌*◌, Bool, true, false, not, xor, Run, done, out_of_fuel, ◌>>=◌, ◌>>◌,
  assert, ◌==◌, length, if◌then◌else◌,
}
use dorder.Bits.{Bits, get, put}
use dorder.CdnfFormula.{last_index}

module _ (membership : Bits → Bool) (a : Bits) where
  -- The body of the loop at an index `i`, with the index of the next round: after a flip that
  -- stays `i` is the length, less the one of the `i--`.
  unfoldable pub walk_step : ℕ → Bits → Run (Bits × ℕ)
  walk_step i v = do
    b ← get v i
    c ← get a i
    let flip = (do
      w ← put v i (not b)
      if membership w then done (w, length a - 1) else (do w' ← put w i b; done (w', i - 1)))
    if xor b c then flip else done (v, i - 1)

  unfoldable pub walk_loop : ℕ → ℕ → Bits → Run Bits
  unfolding walk_step
  walk_loop zero i v = out_of_fuel
  walk_loop (suc fuel) zero v = done v
  walk_loop (suc fuel) (suc i) v = do (v', i') ← walk_step (suc i) v; walk_loop fuel i' v'

  -- Each flip takes `v` nearer to `a`, and between two flips are at most `length a` rounds.
  abbrev pub walk_fuel : ℕ
  walk_fuel = suc (length a) * suc (length a)

  unfoldable pub walk : Bits → Run Bits
  unfolding walk_loop
  walk v = do assert (length v == length a); i ← last_index a; walk_loop walk_fuel i v
