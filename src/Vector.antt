-- ===== src/Vector.antt =====
-- external/cdnfcore/vector.c: growing arrays. A slot that nothing was written to is `none`, and a
-- read of it ends the run as a failed assertion does. Memory is never exhausted.
pub mod Growth
pub mod Laws
use dorder.Prelude.{
  ℕ, zero, suc, ◌+◌, ◌-◌, ◌*◌, ◌/◌, ◌%◌, ◌^◌, Bool, true, false, not, List, [], ◌∷◌, Option, none,
  some, Run, done, out_of_fuel, ◌>>=◌, ◌>>◌, assert, checked, ltb, leb, ◌==◌, length, get_elem?,
  get_or, set, if◌then◌else◌,
}

abbrev pub word : ℕ
word = 2 ^ 64

abbrev pub min_size : ℕ
min_size = 8

-- (result * 3) >> 1, in 64 bits
abbrev pub grow : ℕ → ℕ
grow result = (result * 3) % word / 2

unfoldable pub size_loop : ℕ → ℕ → ℕ → Run ℕ
size_loop zero result length = out_of_fuel
size_loop (suc fuel) result length = elim (ltb result length) [
  | true ↦ size_loop fuel (grow result) length
  | false ↦ done result
]

-- The size of the buffer for a length.
unfoldable pub length_to_size : ℕ → Run ℕ
unfolding size_loop
length_to_size length = do
  result ← size_loop (suc length) min_size length
  assert (leb length result)
  done result

pub record Vector (A : Type 0) : Type 0 where
  pub len : ℕ
  pub size : ℕ
  pub buffer : List (Option A)

module _ {A : Type 0} where
  -- `realloc` to `n` slots from the index `i` on.
  abbrev pub realloc_from : ℕ → ℕ → List (Option A) → List (Option A)
  realloc_from i zero buffer = []
  realloc_from i (suc n) buffer = get_or buffer i none ∷ realloc_from (suc i) n buffer

  unfoldable pub vector_resize : Vector A → ℕ → Run (Vector A)
  vector_resize vec new_length = do
    new_size ← length_to_size new_length
    done (
        if not (new_size == vec.size)
        then record {
          len = new_length;
          size = new_size;
          buffer = realloc_from 0 new_size vec.buffer;
        }
        else record { len = new_length; size = vec.size; buffer = vec.buffer })

  unfoldable pub vector_new : ℕ → Run (Vector A)
  vector_new length = vector_resize (record { len = 0; size = 0; buffer = [] }) length

  unfoldable pub vector_get : Vector A → ℕ → Run A
  vector_get vec idx = do
    assert (ltb idx vec.len)
    slot ← checked (get_elem? vec.buffer idx)
    checked slot

  unfoldable pub vector_set : Vector A → ℕ → A → Run (Vector A)
  vector_set vec idx elt = do
    assert (ltb idx vec.len)
    slot ← checked (get_elem? vec.buffer idx)
    done (record vec { buffer = set vec.buffer idx (some elt) })

  unfoldable pub vector_add : Vector A → A → Run (Vector A)
  vector_add vec elt = do vec' ← vector_resize vec (vec.len + 1); vector_set vec' (vec'.len - 1) elt
