-- ===== src/BoolFormula/Print/Injective.antt =====
-- `boolformula_print` of boolformula.c, on formulas in which no connective has exactly one part.
use dorder.Prelude.{ℕ, ◌≡◌, ◌≢◌, refl, sym, ap, ◌∙◌, List, [], ◌∷◌, ◌++◌, arith, ◌⊎◌, inl, inr}
use dorder.BoolFormula.{Lit, BoolFormula, Formulas, literal, disjunct, conjunct, nil, cons}
use dorder.BoolFormula.Decimal.{IsDecimal, decimal-IsUnique, decimal_starts}
use dorder.BoolFormula.Print.{print}
use dorder.BoolFormula.Print.Composite.{
  IsBranching, composite, ManyParts, Determines, AllDetermine, IsLetter, composite_unique,
}

module _ (decimal : Lit → List ℕ) (is_decimal : IsDecimal decimal) where
  print-disjunct :
      (fs : Formulas) → print decimal (disjunct fs) ≡ composite decimal is_decimal b'F' b'|' fs
  unfolding print
  print-disjunct nil = refl
  print-disjunct (cons f fs) = refl

  print-conjunct :
      (fs : Formulas) → print decimal (conjunct fs) ≡ composite decimal is_decimal b'T' b'&' fs
  unfolding print
  print-conjunct nil = refl
  print-conjunct (cons f fs) = refl

  disjunct-ManyParts : (fs : Formulas) → IsBranching (disjunct fs) → ManyParts fs
  unfolding IsBranching
  disjunct-ManyParts nil b = tt
  disjunct-ManyParts (cons f nil) b = b
  disjunct-ManyParts (cons f (cons g fs)) b = b

  conjunct-ManyParts : (fs : Formulas) → IsBranching (conjunct fs) → ManyParts fs
  unfolding IsBranching
  conjunct-ManyParts nil b = tt
  conjunct-ManyParts (cons f nil) b = b
  conjunct-ManyParts (cons f (cons g fs)) b = b

  -- A composite begins with a bracket, a literal does not.
  literal_composite :
      (l : Lit) (letter sign : ℕ) (fs : Formulas) (t r r' : List ℕ)
      → t ≡ composite decimal is_decimal letter sign fs
      → decimal l ++ r ≡ t ++ r'
      → ⊥
  literal_composite l letter sign nil t r r' q e =
      decimal_starts decimal is_decimal b'{' (omega arith) l r _ (e ∙ ap (λ w. w ++ r') q)
  literal_composite l letter sign (cons f fs) t r r' q e =
      decimal_starts decimal is_decimal b'{' (omega arith) l r _ (e ∙ ap (λ w. w ++ r') q)

  -- What the texts of two composites say of their parts.
  module _ (letter sign letter' sign' : ℕ) (fs gs : Formulas) (l : IsLetter letter)
      (l' : IsLetter letter') (ne : sign ≢ b'}') where
    of_texts :
        (t t' r r' : List ℕ)
        → t ≡ composite decimal is_decimal letter sign fs
        → t' ≡ composite decimal is_decimal letter' sign' gs
        → AllDetermine decimal is_decimal fs
        → ManyParts fs
        → ManyParts gs
        → t ++ (b' ' ∷ r) ≡ t' ++ (b' ' ∷ r')
        → ((letter ≡ letter') ⊎ (sign ≡ sign')) × (fs ≡ gs) × (r ≡ r')
    of_texts t t' r r' p q ds m m' e =
        composite_unique decimal is_decimal letter sign letter' sign' fs gs r r' l l' ne ds m m'
          (ap (λ w. w ++ (b' ' ∷ r)) (sym p) ∙ (e ∙ ap (λ w. w ++ (b' ' ∷ r')) q))

  mutual
    unfolding print

    determines : (f : BoolFormula) → Determines decimal is_decimal f
    determines (literal l) (literal k) r r' b b' e =
        let (p, t) = decimal-IsUnique decimal is_decimal l k r r' e in (ap literal p, t)
    determines (literal l) (disjunct gs) r r' b b' e =
        absurd (literal_composite l b'F' b'|' gs _ _ _ (print-disjunct gs) e)
    determines (literal l) (conjunct gs) r r' b b' e =
        absurd (literal_composite l b'T' b'&' gs _ _ _ (print-conjunct gs) e)
    determines (disjunct fs) (literal k) r r' b b' e =
        absurd (literal_composite k b'F' b'|' fs _ _ _ (print-disjunct fs) (sym e))
    determines (disjunct fs) (disjunct gs) r r' b b' e =
        let (_, p, t) =
          of_texts b'F' b'|' b'F' b'|' fs gs (omega arith) (omega arith) (omega arith) _ _ r r'
            (print-disjunct fs) (print-disjunct gs) (all_determine fs) (disjunct-ManyParts fs b)
            (disjunct-ManyParts gs b') e in
        (ap disjunct p, t)
    determines (disjunct fs) (conjunct gs) r r' b b' e =
        let (o, _, _) =
          of_texts b'F' b'|' b'T' b'&' fs gs (omega arith) (omega arith) (omega arith) _ _ r r'
            (print-disjunct fs) (print-conjunct gs) (all_determine fs) (disjunct-ManyParts fs b)
            (conjunct-ManyParts gs b') e in
        elim o [ inl q ↦ absurd (omega (arith, q)) | inr q ↦ absurd (omega (arith, q)) ]
    determines (conjunct fs) (literal k) r r' b b' e =
        absurd (literal_composite k b'T' b'&' fs _ _ _ (print-conjunct fs) (sym e))
    determines (conjunct fs) (disjunct gs) r r' b b' e =
        let (o, _, _) =
          of_texts b'T' b'&' b'F' b'|' fs gs (omega arith) (omega arith) (omega arith) _ _ r r'
            (print-conjunct fs) (print-disjunct gs) (all_determine fs) (conjunct-ManyParts fs b)
            (disjunct-ManyParts gs b') e in
        elim o [ inl q ↦ absurd (omega (arith, q)) | inr q ↦ absurd (omega (arith, q)) ]
    determines (conjunct fs) (conjunct gs) r r' b b' e =
        let (_, p, t) =
          of_texts b'T' b'&' b'T' b'&' fs gs (omega arith) (omega arith) (omega arith) _ _ r r'
            (print-conjunct fs) (print-conjunct gs) (all_determine fs) (conjunct-ManyParts fs b)
            (conjunct-ManyParts gs b') e in
        (ap conjunct p, t)

    all_determine : (fs : Formulas) → AllDetermine decimal is_decimal fs
    all_determine nil = tt
    all_determine (cons f fs) = (determines f, all_determine fs)

  -- Two formulas in which no connective has exactly one subformula are equal if `boolformula_print`
  -- writes the same text for them, where literals are written as `%ld` is documented to.
  pub boolformula_print_injective :
      (f g : BoolFormula)
      → IsBranching f
      → IsBranching g
      → print decimal f ≡ print decimal g
      → f ≡ g
  boolformula_print_injective f g b b' e =
      (determines f g [] [] b b' (ap (λ t. t ++ (b' ' ∷ [])) e)).0
