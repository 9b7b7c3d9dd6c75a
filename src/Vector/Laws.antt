-- ===== src/Vector/Laws.antt =====
-- vector.c and lists: `Holds vec xs` says that the slots of `vec` up to its length hold `xs`.
use dorder.Prelude.{
  ℕ, zero, suc, ◌+◌, ◌-◌, ◌^◌, ◌≤◌, ◌<◌, ◌≡◌, ◌≢◌, refl, ap, sym, ◌∙◌, List, [], ◌∷◌, ◌++◌, Option,
  none, some, done, arith, lt→ltb, le→ltb, ==→eq, length, get_elem?, get_or, set, length-append,
  length-set, Bool-cases, inl, inr, ◌==◌, get_elem?-eq-get_or, get_elem?-some, get_or-set_self,
  get_or-set_ne, checked,
}
use native.Mathlib.Decide.{ℕ_discrete, dec_lt}
use dorder.Vector.{
  Vector, vector_resize, vector_new, vector_get, vector_set, vector_add, realloc_from,
}
use dorder.Vector.Growth.{length_to_size_bounds}

module _ {A : Type 0} where
  length-realloc : (i n : ℕ) (b : List (Option A)) → length (realloc_from i n b) ≡ n
  length-realloc i zero b = refl
  length-realloc i (suc n) b = ap suc (length-realloc (suc i) n b)

  get_or-realloc :
      (i n k : ℕ) (b : List (Option A))
      → k < n
      → get_or (realloc_from i n b) k none ≡ get_or b (i + k) none
  get_or-realloc i zero k b h = absurd (omega arith)
  get_or-realloc i (suc n) zero b h = ap (λ t. get_or b t none) (add_zero i)
    where
      add_zero : (a : ℕ) → a ≡ a + 0
      add_zero a = omega arith
  get_or-realloc i (suc n) (suc k) b h =
      get_or-realloc (suc i) n k b (omega arith) ∙ ap (λ t. get_or b t none) (shift i k)
    where
      shift : (a b : ℕ) → suc a + b ≡ a + suc b
      shift a b = omega arith

  -- The first slots hold `xs`, and the buffer has `size` slots.
  pub record Holds (vec : Vector A) (xs : List A) : Type 0 where
    pub len : vec.len ≡ length xs
    pub room : vec.len ≤ vec.size
    pub size : vec.size ≡ length vec.buffer
    pub slots : (i : ℕ) → i < length xs → get_or vec.buffer i none ≡ get_elem? xs i

  -- Growing or shrinking to a length keeps the slots below both lengths.
  resize-slots :
      (vec : Vector A) (n : ℕ)
      → n ≤ 2 ^ 62
      → vec.size ≡ length vec.buffer
      → (vec' : Vector A) × (vector_resize vec n ≡ done vec')
        × (vec'.len ≡ n)
        × (n ≤ vec'.size)
        × (vec'.size ≡ length vec'.buffer)
        × ((i : ℕ) → i < n → get_or vec'.buffer i none ≡ get_or vec.buffer i none)
  unfolding vector_resize
  resize-slots vec n p size =
      let (s, e, big, least, close) = length_to_size_bounds n p in
      elim (Bool-cases (s == vec.size)) [
        | inl same ↦ (
          record { len = n; size = vec.size; buffer = vec.buffer },
          rw (e, same) refl,
          refl,
          omega (arith, ==→eq s vec.size same),
          size,
          λ i h. refl,
        )
        | inr differs ↦ (
          record { len = n; size = s; buffer = realloc_from 0 s vec.buffer },
          rw (e, differs) refl,
          refl,
          big,
          sym (length-realloc 0 s vec.buffer),
          λ i h.
              get_or-realloc 0 s i vec.buffer (omega arith)
              ∙ ap (λ t. get_or vec.buffer t none) (zero_add i),
        )
      ]
    where
      zero_add : (a : ℕ) → 0 + a ≡ a
      zero_add a = omega arith

  -- A new vector of length 0 holds nothing.
  pub vector_new-Holds : (vec : Vector A) × (vector_new 0 ≡ done vec) × Holds vec []
  unfolding vector_new
  vector_new-Holds =
      let (vec, e, len, room, size, _) =
        resize-slots (record { len = 0; size = 0; buffer = [] }) 0 (omega arith) refl in
      (
        vec,
        e,
        record { len = len; room = omega arith; size = size; slots = λ i h. absurd (omega arith) },
      )

  -- On a buffer that holds xs, vector_get returns the element of xs at every index in range, and
  -- fails an assertion at every other.
  vector_get-eq :
      (vec : Vector A) (xs : List A) (i : ℕ)
      → Holds vec xs
      → vector_get vec i ≡ checked (get_elem? xs i)
  unfolding vector_get
  vector_get-eq vec xs i h = elim (dec_lt i (length xs)) [
    | yes p ↦
        let (x, e) = get_elem?-some xs i p in
        rw
          (
            lt→ltb i vec.len (omega (arith, h.len)),
            get_elem?-eq-get_or vec.buffer i none (omega (arith, h.len, h.room, h.size)),
            h.slots i p,
            e,
          )
          refl
    | no np ↦ rw (le→ltb i vec.len (omega (arith, h.len)), beyond xs i (omega arith)) refl
  ]
    where
      beyond : (xs : List A) (i : ℕ) → length xs ≤ i → get_elem? xs i ≡ none
      beyond [] i h = refl
      beyond (x ∷ xs) zero h = absurd (omega arith)
      beyond (x ∷ xs) (suc i) h = beyond xs i (omega arith)

  get_elem?-set_self :
      (xs : List A) (i : ℕ) (v : A) → i < length xs → get_elem? (set xs i v) i ≡ some v
  get_elem?-set_self [] i v h = absurd (omega arith)
  get_elem?-set_self (x ∷ xs) zero v h = refl
  get_elem?-set_self (x ∷ xs) (suc i) v h = get_elem?-set_self xs i v (omega arith)

  get_elem?-set_ne :
      (xs : List A) (i j : ℕ) (v : A) → i ≢ j → get_elem? (set xs i v) j ≡ get_elem? xs j
  get_elem?-set_ne [] i j v h = refl
  get_elem?-set_ne (x ∷ xs) zero zero v h = absurd (h refl)
  get_elem?-set_ne (x ∷ xs) zero (suc j) v h = refl
  get_elem?-set_ne (x ∷ xs) (suc i) zero v h = refl
  get_elem?-set_ne (x ∷ xs) (suc i) (suc j) v h = get_elem?-set_ne xs i j v (λ e. h (ap suc e))

  -- On a buffer that holds xs and an index in range, vector_set ends without a failed assertion,
  -- and the buffer holds xs with the new element at that index.
  vector_set-Holds :
      (vec : Vector A) (xs : List A) (i : ℕ) (v : A)
      → Holds vec xs
      → i < length xs
      → (vec' : Vector A) × (vector_set vec i v ≡ done vec') × Holds vec' (set xs i v)
  unfolding vector_set
  vector_set-Holds vec xs i v h p =
      let inside : i < length vec.buffer = omega (arith, h.len, h.room, h.size) in
      (
        record vec { buffer = set vec.buffer i (some v) },
        rw (lt→ltb i vec.len (omega (arith, h.len)), get_elem?-eq-get_or vec.buffer i none inside)
            refl,
        record {
          len = h.len ∙ sym (length-set xs i v);
          room = h.room;
          size = h.size ∙ sym (length-set vec.buffer i (some v));
          slots = λ j q. elim (ℕ_discrete i j) [
            | yes e ↦
                rw
                  (
                    ← e,
                    get_or-set_self vec.buffer i (some v) none inside,
                    get_elem?-set_self xs i v p,
                  )
                  refl
            | no ne ↦
                rw (get_or-set_ne vec.buffer i j (some v) none ne, get_elem?-set_ne xs i j v ne)
                  (h.slots j (omega (arith, length-set xs i v)))
          ];
        },
      )

  -- On a buffer that holds fewer than 2^62 elements, vector_add ends without a failed assertion,
  -- and the buffer holds the element after those that it held.
  pub vector_add-Holds :
      (vec : Vector A) (xs : List A) (v : A)
      → Holds vec xs
      → length xs < 2 ^ 62
      → (vec' : Vector A) × (vector_add vec v ≡ done vec') × Holds vec' (xs ++ v ∷ [])
  unfolding vector_add vector_set
  vector_add-Holds vec xs v h p =
      let (w, e, len, room, size, kept) =
        resize-slots vec (vec.len + 1) (omega (arith, h.len)) h.size in
      let last : w.len - 1 ≡ length xs = omega (arith, h.len) in
      let inside : length xs < length w.buffer = omega (arith, h.len) in
      (
        record w { buffer = set w.buffer (length xs) (some v) },
        rw
            (
              e,
              last,
              lt→ltb (length xs) w.len (omega arith),
              get_elem?-eq-get_or w.buffer (length xs) none inside,
            )
            refl,
        record {
          len = omega (arith, h.len, length-append xs (v ∷ []));
          room = omega arith;
          size = size ∙ sym (length-set w.buffer (length xs) (some v));
          slots = λ j q. elim (ℕ_discrete (length xs) j) [
            | yes at ↦
                rw (← at)
                  (get_or-set_self w.buffer (length xs) (some v) none inside ∙ sym (at_end xs))
            | no ne ↦
                let low : j < length xs = omega (arith, length-append xs (v ∷ []), q, ne) in
                get_or-set_ne w.buffer (length xs) j (some v) none ne
                ∙ (kept j (omega (arith, h.len)) ∙ (h.slots j low ∙ sym (before xs j low)))
          ];
        },
      )
    where
      at_end : (ys : List A) → get_elem? (ys ++ v ∷ []) (length ys) ≡ some v
      at_end [] = refl
      at_end (y ∷ ys) = at_end ys

      before : (ys : List A) (j : ℕ) → j < length ys → get_elem? (ys ++ v ∷ []) j ≡ get_elem? ys j
      before [] j h = absurd (omega arith)
      before (y ∷ ys) zero h = refl
      before (y ∷ ys) (suc j) h = before ys j (omega arith)
