-- ===== src/CdnfFormula/Print/Texts.antt =====
-- The texts that cdnfformula.c prints for formulas, in closed form.
use dorder.Prelude.{
  ℕ, zero, suc, ◌-◌, ◌≤◌, ◌≡◌, refl, sym, ap, ◌∙◌, List, [], ◌∷◌, ◌++◌, arith, length, Run, done,
  get_elem?-eq-get_or, suc-==-zero,
}
use mathlib.Core.List.{append_assoc}
use dorder.BoolFormula.{Lit}
use dorder.CdnfFormula.{Monomial, Disjunction, Conjunction}
use dorder.CdnfFormula.Print.{
  print_down, print_elements, monomial_to_string, disjunction_to_string, print,
}
use dorder.BoolFormula.Decimal.{
  IsDecimal, IsUnique, StartsNot, head_eq, tail_eq, decimal-IsUnique, decimal_starts,
}
use dorder.CdnfFormula.Print.Unique.{at, body, whole, whole_unique}

module _ {A : Type 0} (call : A → Run (List ℕ)) (pr : A → List ℕ)
    (calls : (x : A) → call x ≡ done (pr x)) where
  print_down-body :
      (s : ℕ) (separator : List ℕ) (x : A) (xs : List A) (i : ℕ)
      → i ≤ length xs
      → (t : List ℕ) × (print_down call (b' ' ∷ s ∷ separator) (x ∷ xs) i ≡ done t)
        × (t ++ pr (at x xs 0) ≡ body pr s separator (at x xs) i)
  unfolding print_down
  print_down-body s separator x xs zero h = ([], refl, refl)
  print_down-body s separator x xs (suc i) h =
      let (t, e, f) = print_down-body s separator x xs i (omega arith) in
      let y = at x xs (suc i) in
      let sep = b' ' ∷ s ∷ separator in
      (
        pr y ++ (sep ++ t),
        rw (get_elem?-eq-get_or xs i x (omega arith), calls y, e) refl,
        append_assoc (pr y) (sep ++ t) (pr x)
            ∙ ap (λ w. pr y ++ w) (append_assoc sep t (pr x) ∙ ap (λ w. sep ++ w) f),
      )

  print_elements-body :
      (s : ℕ) (separator : List ℕ) (x : A) (xs : List A)
      → print_elements call (b' ' ∷ s ∷ separator) (x ∷ xs)
        ≡ done (body pr s separator (at x xs) (length xs))
  unfolding print_elements
  print_elements-body s separator x xs =
      let (t, e, f) = print_down-body s separator x xs (length xs) (omega arith) in
      let last : length (x ∷ xs) - 1 ≡ length xs = omega arith in rw (last, e, calls x) (ap done f)

module _ (decimal : Lit → List ℕ) where
  abbrev monomial_text : Monomial → List ℕ
  monomial_text = whole decimal b'&' (b' ' ∷ []) b' ' (b')' ∷ []) b'T' b'(' b')'

  abbrev disjunction_text : Disjunction → List ℕ
  disjunction_text = whole monomial_text b'|' (b' ' ∷ []) b']' [] b'F' b'[' b']'

  abbrev conjunction_text : Conjunction → List ℕ
  conjunction_text = whole disjunction_text b'&' (b' ' ∷ []) b'}' (b'\n' ∷ []) b'T' b'{' b'}'

  monomial_to_string-text : (m : Monomial) → monomial_to_string decimal m ≡ done (monomial_text m)
  unfolding monomial_to_string
  monomial_to_string-text [] = refl
  monomial_to_string-text (l ∷ m) =
      rw
        (
          suc-==-zero (length m),
          print_elements-body (λ l. done (decimal l)) decimal (λ l. refl) b'&' (b' ' ∷ []) l m,
        )
        refl

  disjunction_to_string-text :
      (f : Disjunction) → disjunction_to_string decimal f ≡ done (disjunction_text f)
  unfolding disjunction_to_string
  disjunction_to_string-text [] = refl
  disjunction_to_string-text (m ∷ f) =
      rw
        (
          suc-==-zero (length f),
          print_elements-body (monomial_to_string decimal) monomial_text monomial_to_string-text
              b'|' (b' ' ∷ []) m f,
        )
        refl

  print-text : (f : Conjunction) → print decimal f ≡ done (conjunction_text f)
  unfolding print
  print-text [] = refl
  print-text (d ∷ f) =
      rw
        (
          suc-==-zero (length f),
          print_elements-body (disjunction_to_string decimal) disjunction_text
              disjunction_to_string-text b'&' (b' ' ∷ []) d f,
        )
        refl

  module _ (is_decimal : IsDecimal decimal) where
    monomial_text-IsUnique : IsUnique monomial_text
    monomial_text-IsUnique a b r r' e =
        let (p, t) =
          whole_unique decimal (decimal-IsUnique decimal is_decimal) b'&' b' ' (omega arith)
            (b' ' ∷ []) (b')' ∷ []) b'T' b'(' b')'
            (decimal_starts decimal is_decimal b'T' (omega arith)) a b _ _ e in
        (p, tail_eq b' ' b' ' r r' t)

    monomial_starts : StartsNot monomial_text b'F'
    monomial_starts [] r r' e = absurd (omega (arith, head_eq b'(' b'F' _ r' e))
    monomial_starts (l ∷ m) r r' e = absurd (omega (arith, head_eq b'(' b'F' _ r' e))

    disjunction_text-IsUnique : IsUnique disjunction_text
    disjunction_text-IsUnique a b r r' e =
        let (p, t) =
          whole_unique monomial_text monomial_text-IsUnique b'|' b']' (omega arith) (b' ' ∷ []) []
            b'F' b'[' b']' monomial_starts a b _ _ e in
        (p, tail_eq b' ' b' ' r r' t)

    disjunction_starts : StartsNot disjunction_text b'T'
    disjunction_starts [] r r' e = absurd (omega (arith, head_eq b'[' b'T' _ r' e))
    disjunction_starts (m ∷ f) r r' e = absurd (omega (arith, head_eq b'[' b'T' _ r' e))

    -- Where literals are written as `%ld` is documented to, `cdnfformula_print` ends without a failed
    -- assertion for every formula, and prints different texts for different formulas.
    pub cdnfformula_print_injective :
        (f : Conjunction)
        → (text : List ℕ) × (print decimal f ≡ done text)
          × ((g : Conjunction) → print decimal g ≡ done text → f ≡ g)
    cdnfformula_print_injective f = (
      conjunction_text f,
      print-text f,
      λ g e.
          (whole_unique disjunction_text disjunction_text-IsUnique b'&' b'}' (omega arith)
            (b' ' ∷ []) (b'\n' ∷ []) b'T' b'{' b'}' disjunction_starts f g [] []
            (ap (λ t. t ++ [])
              (same (conjunction_text f) (conjunction_text g) (sym e ∙ print-text g)))).0,
    )
      where
        same : (a b : List ℕ) → done a ≡ done b → a ≡ b
        same a b q = cc
