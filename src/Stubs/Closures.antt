-- ===== src/Stubs/Closures.antt =====
-- The callbacks of cdnfp_stubs.c. The OCaml closures that the names stand for are a parameter,
-- `none` where no closure is registered under the name.
use dorder.Prelude.{
  ℕ, suc, ◌+◌, ◌<◌, ◌≡◌, ◌≢◌, refl, ◌∙◌, subst, Bool, true, false, List, Run, done, failed, ◌>>=◌,
  ◌>>◌, assert, checked, Option, none, some, arith, ◌==◌, eq→==, ne→==, length, set, length-set,
  get_or-set_self,
}
use dorder.Bits.{Bits}
use dorder.BoolFormula.{BoolFormula}
use dorder.Bitvector.{Bitvector}
use dorder.Bitvector.Words.{Word}
use dorder.Bitvector.Laws.{Represents}
use dorder.Learn.Teacher.{Teacher}
use dorder.Learn.Honest.{Point}
use dorder.Learn.Safety.{IsShaped}
use dorder.Stubs.Arrays.{
  boolarray_from_bitvector, bitvector_from_boolarray, boolarray_from_bitvector-eq,
  bitvector_from_boolarray-Represents,
}

-- Query.YES and Query.NO
pub data Reply : Type 0 where
  mem_yes mem_no : Reply

-- Query.EQ and Query.CE, and a value that is none of the two.
pub data Answer : Type 0 where
  equal : Answer
  counterexample : List Bool → Answer
  malformed : Answer

abbrev pub is_yes : Reply → Bool
is_yes mem_yes = true
is_yes mem_no = false

-- `is_member`, and `is_comember`, which differs in the name only.
unfoldable pub is_member : Option (List Bool → Reply) → Bitvector → Run Bool
unfolding boolarray_from_bitvector
is_member named bv = do
  closure ← checked named
  boolarray ← boolarray_from_bitvector bv
  done (is_yes (closure boolarray))

unfoldable pub is_equivalent :
    (ℕ → Word) → Option (ℕ → BoolFormula → Answer) → ℕ → BoolFormula → Run (Option Bitvector)
unfolding bitvector_from_boolarray
is_equivalent junk named num_vars f = do
  closure ← checked named
  elim (closure num_vars f) [
    | equal ↦ done none
    | counterexample bary ↦ do
      bv ← bitvector_from_boolarray junk bary
      assert (bv.len == (num_vars + 1))
      done (some bv)
    | malformed ↦ failed
  ]

-- The closures of an `Info`. For comembership there may be none. The `k`-th equivalence query has its number.
pub record Closures : Type 0 where
  pub membership : List Bool → Reply
  pub comembership : Option (List Bool → Reply)
  pub equivalence : ℕ → ℕ → BoolFormula → Answer

abbrev pub answer_bits : Answer → Option Bits
answer_bits equal = none
answer_bits (counterexample bary) = some (set bary 0 false)
answer_bits malformed = none

-- The answer where a closure is registered.
abbrev pub reply_to : Option (List Bool → Reply) → List Bool → Bool
reply_to none bary = false
reply_to (some closure) bary = is_yes (closure bary)

-- The callbacks as the learner sees them, over the bits of the vectors that it passes.
abbrev pub teacher_of : Closures → Teacher
teacher_of c = record {
  membership = λ v. is_yes (c.membership (set v 0 false));
  comembership = λ v. reply_to c.comembership (set v 0 false);
  equivalence = λ k n f. answer_bits (c.equivalence k n f);
}

-- `is_member` as the learner calls it, on the bits of a vector.
unfoldable pub member_bits : Option (List Bool → Reply) → Bits → Run Bool
member_bits named v = do closure ← checked named; done (is_yes (closure (set v 0 false)))

-- `is_equivalent` as the learner calls it.
unfoldable pub equivalent_bits :
    Option (ℕ → BoolFormula → Answer) → ℕ → BoolFormula → Run (Option Bits)
equivalent_bits named num_vars f = do
  closure ← checked named
  elim (closure num_vars f) [
    | equal ↦ done none
    | counterexample bary ↦ do
      assert (length bary == (num_vars + 1))
      done (some (set bary 0 false))
    | malformed ↦ failed
  ]

-- On a vector that is not empty and represents xs, `is_member` does what the learner calls on xs.
is_member-eq-member_bits :
    (named : Option (List Bool → Reply)) (bv : Bitvector) (xs : Bits)
    → Represents bv xs
    → 0 < length xs
    → is_member named bv ≡ member_bits named xs
unfolding is_member member_bits
is_member-eq-member_bits none bv xs r p = refl
is_member-eq-member_bits (some closure) bv xs r p = rw (boolarray_from_bitvector-eq bv xs r p) refl

-- A vector and the bits that it represents, or NULL for none.
abbrev pub SameAnswer : Option Bitvector → Option Bits → Type 0
SameAnswer none none = Unit
SameAnswer (some bv) (some xs) = Represents bv xs
SameAnswer _ _ = ⊥

-- `is_equivalent` with a closure that gives arrays with a field for each variable and field 0, and gives no
-- other values, does what the learner calls: it gives a vector that represents the bits.
is_equivalent-eq-equivalent_bits :
    (junk : ℕ → Word) (c : Closures) (k n : ℕ) (f : BoolFormula) (a : Answer)
    → c.equivalence k n f ≡ a
    → a ≢ malformed
    → ((bary : List Bool) → a ≡ counterexample bary → length bary ≡ suc n)
    → (r : Option Bitvector) × (o : Option Bits) × (is_equivalent junk (some (c.equivalence k)) n f
        ≡ done r)
      × (equivalent_bits (some (c.equivalence k)) n f ≡ done o)
      × SameAnswer r o
unfolding is_equivalent equivalent_bits
is_equivalent-eq-equivalent_bits junk c k n f equal e ne sizes =
    (none, none, rw e refl, rw e refl, tt)
is_equivalent-eq-equivalent_bits junk c k n f (counterexample bary) e ne sizes =
    let len = sizes bary refl in
    let (bv, new, rep, _) = bitvector_from_boolarray-Represents junk bary (omega arith) in
    (
      some bv,
      some (set bary 0 false),
      rw (e, new, eq→== bv.len (n + 1) (omega (arith, rep.size, length-set bary 0 false))) refl,
      rw (e, eq→== (length bary) (n + 1) (omega arith)) refl,
      rep,
    )
is_equivalent-eq-equivalent_bits junk c k n f malformed e ne sizes = absurd (ne refl)

-- When a closure is registered, a counterexample with a field for each variable and field 0 comes
-- back as a vector that represents the teacher's answer, which has bit 0 clear.
pub is_equivalent-Represents :
    (junk : ℕ → Word) (c : Closures) (k n : ℕ) (f : BoolFormula) (bary : List Bool)
    → c.equivalence k n f ≡ counterexample bary
    → length bary ≡ suc n
    → (bv : Bitvector) × (xs : Bits) × (is_equivalent junk (some (c.equivalence k)) n f
        ≡ done (some bv))
      × ((teacher_of c).equivalence k n f ≡ some xs)
      × Represents bv xs
      × Point n xs
unfolding is_equivalent
is_equivalent-Represents junk c k n f bary e len =
    let (bv, new, rep, _) = bitvector_from_boolarray-Represents junk bary (omega arith) in
    (
      bv,
      set bary 0 false,
      rw (e, new, eq→== bv.len (n + 1) (omega (arith, rep.size, length-set bary 0 false))) refl,
      rw e refl,
      rep,
      (length-set bary 0 false ∙ len, get_or-set_self bary 0 false false (omega arith)),
    )

-- A counterexample with at least one field, but not one for each variable and field 0, fails an
-- assertion.
is_equivalent-failed :
    (junk : ℕ → Word) (c : Closures) (k n : ℕ) (f : BoolFormula) (bary : List Bool)
    → c.equivalence k n f ≡ counterexample bary
    → 0 < length bary
    → length bary ≢ suc n
    → is_equivalent junk (some (c.equivalence k)) n f ≡ failed
unfolding is_equivalent
is_equivalent-failed junk c k n f bary e p ne =
    let (bv, new, rep, _) = bitvector_from_boolarray-Represents junk bary p in
    rw
      (e, new, ne→== bv.len (n + 1) (λ q. ne (omega (arith, rep.size, length-set bary 0 false, q))))
      refl

-- The closures give counterexamples with a field for each variable and field 0, and no other values.
pub record GivesArrays (c : Closures) : Type 0 where
  pub sizes :
      (k n : ℕ) (f : BoolFormula) (bary : List Bool)
      → c.equivalence k n f ≡ counterexample bary
      → length bary ≡ suc n
  pub formed : (k n : ℕ) (f : BoolFormula) → c.equivalence k n f ≢ malformed

pub IsShaped-teacher : (c : Closures) → GivesArrays c → IsShaped (teacher_of c)
IsShaped-teacher c g = record {
  counterexamples = λ k n f v e. shape k n f v (c.equivalence k n f) refl e;
}
  where
    shape :
        (k n : ℕ) (f : BoolFormula) (v : Bits) (r : Answer)
        → c.equivalence k n f ≡ r
        → answer_bits r ≡ some v
        → Point n v
    shape k n f v equal q e = cc
    shape k n f v malformed q e = cc
    shape k n f v (counterexample bary) q e = subst (Point n) (same (set bary 0 false) v e) (
      length-set bary 0 false ∙ g.sizes k n f bary q,
      get_or-set_self bary 0 false false (omega (arith, g.sizes k n f bary q)),
    )
      where
        same : (a b : Bits) → some a ≡ some b → a ≡ b
        same a b p = cc
