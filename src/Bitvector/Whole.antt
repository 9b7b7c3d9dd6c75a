-- ===== src/Bitvector/Whole.antt =====
-- New vectors and growing ones, of bitvector.c.
use dorder.Prelude.{
  ℕ, zero, suc, ◌+◌, ◌/◌, ◌≤◌, ◌<◌, ◌≡◌, refl, ap, sym, ◌∙◌, subst, Bool, false, List, [], ◌∷◌,
  done, arith, lt→ltb, le→ltb, length, get_or, set, length-append,
}
use native.Mathlib.Decide.{dec_lt}
use dorder.Bits.{Bits, value_of, extend}
use dorder.Bitvector.{
  Bitvector, bitvector_new, bitvector_set, bitvector_resize, realloc, tabulate_from, length_to_size,
}
use dorder.Bitvector.Words.{Word, IsExtended, masked}
use dorder.Bitvector.Laws.{HoldsTo, Represents, HasRoom, zero_word, word_of, bitvector_set-HoldsTo}

length-tabulate : (i n : ℕ) (f : ℕ → Word) → length (tabulate_from i n f) ≡ n
length-tabulate i zero f = refl
length-tabulate i (suc n) f = ap suc (length-tabulate (suc i) n f)

get_or-tabulate :
    (i n k : ℕ) (f : ℕ → Word) → k < n → get_or (tabulate_from i n f) k zero_word ≡ f (i + k)
get_or-tabulate i zero k f h = absurd (omega arith)
get_or-tabulate i (suc n) zero f h = ap f (add_zero i)
  where
    add_zero : (a : ℕ) → a ≡ a + 0
    add_zero a = omega arith
get_or-tabulate i (suc n) (suc k) f h =
    get_or-tabulate (suc i) n k f (omega arith) ∙ ap f (shift i k)
  where
    shift : (a b : ℕ) → suc a + b ≡ a + suc b
    shift a b = omega arith

get_or-default :
    (xs : List Word) (i : ℕ) (d e : Word) → i < length xs → get_or xs i d ≡ get_or xs i e
get_or-default [] i d e h = absurd (omega arith)
get_or-default (x ∷ xs) zero d e h = refl
get_or-default (x ∷ xs) (suc i) d e h = get_or-default xs i d e (omega arith)

value_of-extend_lt :
    (xs : Bits) (b : Bool) (i : ℕ) → i < length xs → value_of (extend xs b) i ≡ value_of xs i
value_of-extend_lt [] b i h = absurd (omega arith)
value_of-extend_lt (x ∷ xs) b zero h = refl
value_of-extend_lt (x ∷ xs) b (suc i) h = value_of-extend_lt xs b i (omega arith)

set-extend : (xs : Bits) (b c : Bool) → set (extend xs b) (length xs) c ≡ extend xs c
set-extend [] b c = refl
set-extend (x ∷ xs) b c = ap (λ w. x ∷ w) (set-extend xs b c)

-- The buffer has at least `size` words: `size` may be out of date, but it is not too large.
abbrev pub IsAllocated : Bitvector → Type 0
IsAllocated bv = bv.size ≤ length bv.buffer

module _ (junk : ℕ → Word) where
  -- Growing keeps the old bits, and makes room for the new length.
  module _ (bv : Bitvector) (xs : Bits) (r : Represents bv xs) (alloc : IsAllocated bv) where
    realloc-word :
        (n i : ℕ)
        → length_to_size bv.len ≤ n
        → i < bv.len
        → get_or (realloc junk bv.buffer n) (i / 32) zero_word ≡ word_of bv i
    unfolding realloc
    realloc-word n i h p =
        get_or-tabulate 0 n (i / 32) (λ k. get_or bv.buffer k (junk k)) (omega arith)
        ∙ (ap (λ k. get_or bv.buffer k (junk k)) (zero_add (i / 32))
            ∙ get_or-default bv.buffer (i / 32) (junk (i / 32)) zero_word (omega (arith, r.room)))
      where
        zero_add : (a : ℕ) → 0 + a ≡ a
        zero_add a = omega arith

    length-realloc : (n : ℕ) → length (realloc junk bv.buffer n) ≡ n
    unfolding realloc
    length-realloc n = length-tabulate 0 n (λ k. get_or bv.buffer k (junk k))

    abbrev grown : Bitvector
    grown = bitvector_resize junk bv (suc (length xs))

    grown_facts :
        (grown.len ≡ suc (length xs))
        × (grown.size ≡ bv.size)
        × HasRoom grown
        × IsAllocated grown
        × ((i : ℕ) → i < bv.len → word_of grown i ≡ word_of bv i)
    unfolding bitvector_resize
    grown_facts = elim (dec_lt bv.size (length_to_size (suc (length xs)))) [
      | yes p ↦ rw (lt→ltb bv.size (length_to_size (suc (length xs))) p) (
        refl,
        refl,
        omega (arith, length-realloc (length_to_size (suc (length xs)))),
        omega (arith, length-realloc (length_to_size (suc (length xs)))),
        λ i h. realloc-word (length_to_size (suc (length xs))) i (omega (arith, r.size)) h,
      )
      | no np ↦
          rw (le→ltb bv.size (length_to_size (suc (length xs))) (omega arith))
            (refl, refl, omega (arith, alloc), alloc, λ i h. refl)
    ]

    -- On a vector that represents xs and has at least size words, bitvector_resize to one bit more
    -- and bitvector_set of that bit append it. There are still at least size words, and size is
    -- unchanged.
    pub resize-Represents :
        (b : Bool)
        → (bv' : Bitvector) × (bitvector_set grown (length xs) b ≡ done bv')
          × Represents bv' (extend xs b)
          × IsAllocated bv'
          × (bv'.size ≡ bv.size)
    resize-Represents b =
        let (len, same, room, alloc', words) = grown_facts in
        let held : HoldsTo (length xs) grown (extend xs false) = record {
          size = len ∙ sym (size_extend false);
          room = room;
          bits = λ i h _.
              ap (λ w. masked w i) (words i (omega (arith, r.size)))
              ∙ (r.bits i h (omega (arith, r.size)) ∙ sym (value_of-extend_lt xs false i h));
          extended = λ i h _ top.
              subst IsExtended (sym (words i (omega (arith, r.size))))
                (r.extended i h (omega (arith, r.size)) top);
        } in
        let (bv', e, holds, same', _, words') =
          bitvector_set-HoldsTo grown (extend xs false) (length xs) b (length xs) held
            (omega (arith, size_extend false)) (length (extend xs b))
            (λ j h ne. omega (arith, size_extend b, h, ne)) in
        (
          bv',
          e,
          subst (λ ys. HoldsTo (length (extend xs b)) bv' ys) (set-extend xs false b) holds,
          omega (arith, same', words', alloc'),
          same' ∙ same,
        )
      where
        size_extend : (c : Bool) → length (extend xs c) ≡ suc (length xs)
        size_extend c = omega (arith, length-append xs (c ∷ []))

  -- A new vector: its size and its room, and bit 0.
  pub bitvector_new-HoldsTo :
      (xs : Bits)
      → 0 < length xs
      → (r : Bitvector) × (bitvector_new junk (length xs) ≡ done r)
        × HoldsTo 1 r (set xs 0 false)
        × (r.size ≡ length_to_size (length xs))
        × (length r.buffer ≡ length_to_size (length xs))
  unfolding bitvector_new
  bitvector_new-HoldsTo [] h = absurd (omega arith)
  bitvector_new-HoldsTo (x ∷ xs) h =
      let blank : Bitvector = record {
        len = suc (length xs);
        size = length_to_size (suc (length xs));
        buffer = tabulate_from 0 (length_to_size (suc (length xs))) junk;
      } in
      let room = length-tabulate 0 (length_to_size (suc (length xs))) junk in
      let held : HoldsTo 0 blank (x ∷ xs) = record {
        size = refl;
        room = omega (arith, room);
        bits = λ i p _. absurd (omega arith);
        extended = λ i p _ _. absurd (omega arith);
      } in
      let (r, e, holds, same, _, words) =
        bitvector_set-HoldsTo blank (x ∷ xs) 0 false 0 held (omega arith) 1
          (λ j p ne. absurd (ne (omega arith))) in
      (r, e, holds, same, words ∙ room)
