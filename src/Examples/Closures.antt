-- ===== src/Examples/Closures.antt =====
-- cdnfp_stubs.c and the assertions of cdnf.c: the theorems with closures for one variable, and with
-- an exhaustive teacher.
use dorder.Prelude.{
  pos, ℕ, zero, suc, ◌<◌, ◌≡◌, ◌≢◌, refl, Bool, true, false, List, [], ◌∷◌, Option, none, some,
  done, failed, ◌>>=◌, arith, length,
}
use dorder.Bits.{Bits, value_of}
use dorder.BoolFormula.{BoolFormula, literal, disjunct, conjunct, nil, cons}
use dorder.Bitvector.{Bitvector}
use dorder.Bitvector.Words.{Word, any_below, masked}
use dorder.Bitvector.Laws.{Represents, word_of}
use dorder.Learn.Teacher.{plus, plain, plus_plus, plus3}
use dorder.Learn.Core.{learn}
use dorder.Learn.Honest.{Point}
use dorder.Learn.Safety.{IsShaped, learn-ne-failed, learn-ne-null}
use dorder.Learn.Exhaustive.{exhaustive, exhaustive-Honest}
use dorder.Stubs.Access.{ocaml_get_length}
use dorder.Stubs.Arrays.{boolarray_from_bitvector, bitvector_from_boolarray, boolarray_roundtrip}
use dorder.Stubs.Closures.{
  Reply, mem_yes, mem_no, counterexample, Closures, GivesArrays, teacher_of, is_equivalent,
  is_equivalent-Represents,
}
use dorder.Stubs.Names.{Registry}
use dorder.Stubs.Calls.{string, non_null, ocaml_cdnf, ocaml_cdnfx, ocaml_cdnfxx, ocaml_cdnfxxx}
use dorder.Stubs.Calls.Safe.{IsRegistered, entry_points-ne-failed}

abbrev blank : ℕ → Word
blank i k = false

abbrev array : List Bool
array = true ∷ true ∷ []

boolarray_roundtrip_example :
    (bitvector_from_boolarray blank array >>= boolarray_from_bitvector) ≡ done (false ∷ true ∷ [])
boolarray_roundtrip_example = boolarray_roundtrip blank array (omega arith)

-- The array with a field for each of `n` variables, and field 0, all true.
abbrev ones : ℕ → List Bool
ones zero = true ∷ []
ones (suc n) = true ∷ ones n

length-ones : (n : ℕ) → length (ones n) ≡ suc n
length-ones zero = refl
length-ones (suc n) = omega (arith, length-ones n)

-- Every formula is refuted by `ones`.
abbrev stubborn : Closures
stubborn = record {
  membership = λ bary. mem_yes;
  comembership = some (λ bary. mem_no);
  equivalence = λ k n f. counterexample (ones n);
}

-- Every formula is refuted by an array of two fields.
abbrev careless : Closures
careless = record stubborn { equivalence = λ k n f. counterexample array }

GivesArrays-stubborn : GivesArrays stubborn
GivesArrays-stubborn = record { sizes = λ k n f bary e. size n bary e; formed = λ k n f e. cc }
  where
    size :
        (n : ℕ) (bary : List Bool)
        → counterexample (ones n) ≡ counterexample bary
        → length bary ≡ suc n
    size n bary e = same (ones n) bary e (length-ones n)
      where
        same :
            (a b : List Bool)
            → counterexample a ≡ counterexample b
            → length a ≡ suc n
            → length b ≡ suc n
        same a b p h = cc

abbrev one_bit : Bitvector
one_bit = record { len = 2; size = 1; buffer = blank 0 ∷ [] }

Represents-one_bit : Represents one_bit (false ∷ false ∷ [])
unfolding any_below
Represents-one_bit = record {
  size = refl;
  room = omega arith;
  bits = each;
  extended = λ i h p top. absurd (omega arith);
}
  where
    each : (i : ℕ) → i < 2 → i < 2 → masked (word_of one_bit i) i ≡ value_of (false ∷ false ∷ []) i
    each zero h p = refl
    each (suc zero) h p = refl
    each (suc (suc i)) h p = absurd (omega arith)

is_equivalent-Represents_example :
    (bv : Bitvector) × (xs : Bits) × (is_equivalent blank
        (some (stubborn.equivalence 0))
        1
        (conjunct nil)
      ≡ done (some bv))
    × ((teacher_of stubborn).equivalence 0 1 (conjunct nil) ≡ some xs)
    × Represents bv xs
    × Point 1 xs
is_equivalent-Represents_example =
    is_equivalent-Represents blank stubborn 0 1 (conjunct nil) array refl refl

abbrev comember : List Bool → Reply
comember bary = mem_no

-- The name of one byte is that of the membership closure, and no closure has the empty name.
abbrev member_named : List ℕ → Option (List Bool → Reply)
member_named [] = none
member_named (b ∷ []) = some stubborn.membership
member_named (b ∷ b' ∷ s) = some comember

abbrev table : Registry
table = record { membership = member_named; equivalence = λ s. some stubborn.equivalence }

IsRegistered-stubborn : IsRegistered table stubborn (109 ∷ []) (101 ∷ [])
IsRegistered-stubborn = record {
  named_x = ((λ e. omega (arith, e)), tt);
  named_z = ((λ e. omega (arith, e)), tt);
  membership = refl;
  equivalence = refl;
}

entry_points-ne-failed_example :
    ((ocaml_cdnf table 2 9 1 (string (109 ∷ [])) (string (101 ∷ []))
        ≡ learn (teacher_of stubborn) plain 2 9 1)
      × (ocaml_cdnf table 2 9 1 (string (109 ∷ [])) (string (101 ∷ [])) ≢ failed))
    × ((ocaml_cdnfx table 2 9 1 (string (109 ∷ [])) (string (101 ∷ []))
          ≡ non_null (learn (teacher_of stubborn) plus 2 9 1))
        × (ocaml_cdnfx table 2 9 1 (string (109 ∷ [])) (string (101 ∷ [])) ≢ failed))
    × ((ocaml_cdnfxx table 2 9 1 (string (109 ∷ [])) (string (99 ∷ 111 ∷ [])) (string (101 ∷ []))
          ≡ non_null (learn (teacher_of stubborn) plus_plus 2 9 1))
        × (ocaml_cdnfxx table 2 9 1 (string (109 ∷ [])) (string (99 ∷ 111 ∷ [])) (string (101 ∷ []))
            ≢ failed))
    × ((ocaml_cdnfxxx table 2 9 1 (string (109 ∷ [])) (string (101 ∷ []))
          ≡ non_null (learn (teacher_of stubborn) plus3 2 9 1))
        × (ocaml_cdnfxxx table 2 9 1 (string (109 ∷ [])) (string (101 ∷ [])) ≢ failed))
entry_points-ne-failed_example =
    entry_points-ne-failed table stubborn (109 ∷ []) (101 ∷ []) GivesArrays-stubborn
      IsRegistered-stubborn (99 ∷ 111 ∷ []) comember
      ((λ e. omega (arith, e)), ((λ e. omega (arith, e)), tt)) refl refl 2 9 1

abbrev first_bit : Bits → Bool
first_bit v = value_of v 1

IsShaped-exhaustive : IsShaped (exhaustive first_bit)
IsShaped-exhaustive = record {
  counterexamples = λ k n b v e. ((exhaustive-Honest first_bit).refuted k n b v e).0;
}

learn-ne-failed_example : learn (exhaustive first_bit) plain 2 9 1 ≢ failed
learn-ne-failed_example = learn-ne-failed (exhaustive first_bit) plain IsShaped-exhaustive 2 9 1

learn-ne-null_example : learn (exhaustive first_bit) plus 2 9 1 ≢ done none
learn-ne-null_example = learn-ne-null (exhaustive first_bit) plus IsShaped-exhaustive 2 9 1 refl

-- x₁ ∨ (the empty conjunction)
abbrev pair : BoolFormula
pair = disjunct (cons (literal (pos 1)) (cons (conjunct nil) nil))

length-pair : ocaml_get_length pair ≡ done 2
unfolding ocaml_get_length
length-pair = refl
