-- ===== src/BoolFormula/Print/Composite.antt =====
-- What `boolformula_print` of boolformula.c writes for a connective.
use dorder.Prelude.{
  ℕ, ◌<◌, ◌≡◌, ◌≢◌, refl, sym, subst, ◌∙◌, List, [], ◌∷◌, ◌++◌, arith, ◌⊎◌, inl, inr,
}
use mathlib.Core.List.{append_assoc}
use dorder.BoolFormula.{Lit, BoolFormula, Formulas, literal, disjunct, conjunct, nil, cons}
use dorder.BoolFormula.Decimal.{IsDecimal, StartsNot, head_eq, tail_eq, decimal_starts}
use dorder.BoolFormula.Print.{print, print_loop}

-- No connective has exactly one subformula, whose text would not show which connective it is.
unfoldable mutual
  pub IsBranching : BoolFormula → Type 0
  IsBranching (literal l) = Unit
  IsBranching (disjunct nil) = Unit
  IsBranching (disjunct (cons f nil)) = ⊥
  IsBranching (disjunct (cons f (cons g fs))) = IsBranching f × IsBranching g × AllBranching fs
  IsBranching (conjunct nil) = Unit
  IsBranching (conjunct (cons f nil)) = ⊥
  IsBranching (conjunct (cons f (cons g fs))) = IsBranching f × IsBranching g × AllBranching fs

  pub AllBranching : Formulas → Type 0
  AllBranching nil = Unit
  AllBranching (cons f fs) = IsBranching f × AllBranching fs

-- More parts than one, or none.
abbrev pub ManyParts : Formulas → Type 0
ManyParts nil = Unit
ManyParts (cons f nil) = ⊥
ManyParts (cons f (cons g fs)) = IsBranching f × IsBranching g × AllBranching fs

-- A capital letter.
abbrev pub IsLetter : ℕ → Type 0
IsLetter m = (b'9' < m) × (m < b'{')

module _ (decimal : Lit → List ℕ) (is_decimal : IsDecimal decimal) where
  -- A text is that of a literal, or begins with a bracket.
  print_starts : (m : ℕ) → b'9' < m → m < b'{' → StartsNot (print decimal) m
  unfolding print
  print_starts m above below (literal l) r r' e = decimal_starts decimal is_decimal m above l r r' e
  print_starts m above below (disjunct nil) r r' e = omega (arith, head_eq b'{' m _ r' e)
  print_starts m above below (disjunct (cons f fs)) r r' e = omega (arith, head_eq b'{' m _ r' e)
  print_starts m above below (conjunct nil) r r' e = omega (arith, head_eq b'{' m _ r' e)
  print_starts m above below (conjunct (cons f fs)) r r' e = omega (arith, head_eq b'{' m _ r' e)

  -- A composite, with its letter for the empty vector and the sign in its separators.
  abbrev pub composite : ℕ → ℕ → Formulas → List ℕ
  composite letter sign nil = b'{' ∷ b' ' ∷ letter ∷ b' ' ∷ b'}' ∷ []
  composite letter sign (cons f fs) =
      b'{'
      ∷ b' '
      ∷ (print_loop decimal (b' ' ∷ sign ∷ b' ' ∷ []) (print decimal f) fs ++ (b' ' ∷ b'}' ∷ []))

  -- The text of one formula in front of a space determines it.
  abbrev pub Determines : BoolFormula → Type 0
  Determines f =
      (g : BoolFormula) (r r' : List ℕ)
      → IsBranching f
      → IsBranching g
      → print decimal f ++ (b' ' ∷ r) ≡ print decimal g ++ (b' ' ∷ r')
      → (f ≡ g) × (r ≡ r')

  abbrev pub AllDetermine : Formulas → Type 0
  AllDetermine nil = Unit
  AllDetermine (cons f fs) = Determines f × AllDetermine fs

  -- What follows the first text in a loop, in front of what comes after the loop.
  open_loop :
      (sign : ℕ) (text : List ℕ) (g : BoolFormula) (gs : Formulas) (t : List ℕ)
      → print_loop decimal (b' ' ∷ sign ∷ b' ' ∷ []) text (cons g gs) ++ t
        ≡ text
          ++ (b' '
              ∷ sign
              ∷ b' '
              ∷ (print_loop decimal (b' ' ∷ sign ∷ b' ' ∷ []) (print decimal g) gs ++ t))
  unfolding print
  open_loop sign text g gs t =
      append_assoc text
        (b' ' ∷ sign ∷ b' ' ∷ print_loop decimal (b' ' ∷ sign ∷ b' ' ∷ []) (print decimal g) gs) t

  tail_eq₂ : (a b c d : ℕ) (x y : List ℕ) → a ∷ b ∷ x ≡ c ∷ d ∷ y → x ≡ y
  tail_eq₂ a b c d x y e = cc

  loop_unique :
      (sign : ℕ) (f g : BoolFormula) (fs gs : Formulas) (r r' : List ℕ)
      → sign ≢ b'}'
      → Determines f
      → AllDetermine fs
      → IsBranching f
      → IsBranching g
      → AllBranching fs
      → AllBranching gs
      → print_loop decimal (b' ' ∷ sign ∷ b' ' ∷ []) (print decimal f) fs ++ (b' ' ∷ b'}' ∷ r)
        ≡ print_loop decimal (b' ' ∷ sign ∷ b' ' ∷ []) (print decimal g) gs ++ (b' ' ∷ b'}' ∷ r')
      → (f ≡ g) × (fs ≡ gs) × (r ≡ r')
  unfolding print IsBranching
  loop_unique sign f g nil nil r r' ne d ds bf bg bfs bgs e =
      let (p, t) = d g _ _ bf bg e in (p, refl, tail_eq b'}' b'}' r r' t)
  loop_unique sign f g nil (cons k gs) r r' ne d ds bf bg bfs bgs e =
      let (_, t) = d g _ _ bf bg (e ∙ open_loop sign (print decimal g) k gs (b' ' ∷ b'}' ∷ r')) in
      absurd (ne (sym (head_eq b'}' sign _ _ t)))
  loop_unique sign f g (cons h fs) nil r r' ne d ds bf bg bfs bgs e =
      let (_, t) =
        d g _ _ bf bg (sym (open_loop sign (print decimal f) h fs (b' ' ∷ b'}' ∷ r)) ∙ e) in
      absurd (ne (head_eq sign b'}' _ _ t))
  loop_unique sign f g (cons h fs) (cons k gs) r r' ne d ds bf bg bfs bgs e =
      let (p, t) = d g _ _ bf bg (
        sym (open_loop sign (print decimal f) h fs (b' ' ∷ b'}' ∷ r))
        ∙ (e ∙ open_loop sign (print decimal g) k gs (b' ' ∷ b'}' ∷ r'))) in
      let (q, qs, s) =
        loop_unique sign h k fs gs r r' ne ds.0 ds.1 bfs.0 bgs.0 bfs.1 bgs.1
          (tail_eq₂ sign b' ' sign b' ' _ _ t) in
      (p, cc, s)

  three :
      (a b c : ℕ) (x y : List ℕ) → a ∷ b ∷ c ∷ b' ' ∷ b'}' ∷ x ≡ a ∷ b ∷ c ∷ b' ' ∷ b'}' ∷ y → x ≡ y
  three a b c x y e = cc

  third : (a b c d : ℕ) (x y : List ℕ) → a ∷ b ∷ c ∷ x ≡ a ∷ b ∷ d ∷ y → c ≡ d
  third a b c d x y e = cc

  -- Two composites in front of a space: they have the same parts, and the same connective by its
  -- letter or its sign.
  pub composite_unique :
      (letter sign letter' sign' : ℕ) (fs gs : Formulas) (r r' : List ℕ)
      → IsLetter letter
      → IsLetter letter'
      → sign ≢ b'}'
      → AllDetermine fs
      → ManyParts fs
      → ManyParts gs
      → composite letter sign fs ++ (b' ' ∷ r) ≡ composite letter' sign' gs ++ (b' ' ∷ r')
      → ((letter ≡ letter') ⊎ (sign ≡ sign')) × (fs ≡ gs) × (r ≡ r')
  unfolding IsBranching
  composite_unique letter sign letter' sign' nil nil r r' l l' ne ds m m' e =
      let a = third b'{' b' ' letter letter' _ _ e in
      let t = tail_eq₂ b'{' b' ' b'{' b' ' _ _ e in
      let u = tail_eq₂ b' ' b'}' b' ' b'}' _ _ (tail_eq letter letter' _ _ t) in
      (inl a, refl, tail_eq b' ' b' ' r r' u)
  composite_unique letter sign letter' sign' nil (cons g nil) r r' l l' ne ds m m' e = absurd m'
  composite_unique letter sign letter' sign' nil (cons g (cons k gs)) r r' l l' ne ds m m' e =
      let t = tail_eq₂ b'{' b' ' b'{' b' ' _ _ e in
      absurd (
        print_starts letter l.0 l.1 g _ _ (
          sym (open_loop sign' (print decimal g) k gs (b' ' ∷ b'}' ∷ b' ' ∷ r'))
          ∙ (sym (
                append_assoc
                  (print_loop decimal (b' ' ∷ sign' ∷ b' ' ∷ []) (print decimal g) (cons k gs))
                  (b' ' ∷ b'}' ∷ []) (b' ' ∷ r'))
              ∙ sym t)))
  composite_unique letter sign letter' sign' (cons f nil) gs r r' l l' ne ds m m' e = absurd m
  composite_unique letter sign letter' sign' (cons f (cons h fs)) nil r r' l l' ne ds m m' e =
      let t = tail_eq₂ b'{' b' ' b'{' b' ' _ _ e in
      absurd (
        print_starts letter' l'.0 l'.1 f _ _ (
          sym (open_loop sign (print decimal f) h fs (b' ' ∷ b'}' ∷ b' ' ∷ r))
          ∙ (sym (
                append_assoc
                  (print_loop decimal (b' ' ∷ sign ∷ b' ' ∷ []) (print decimal f) (cons h fs))
                  (b' ' ∷ b'}' ∷ []) (b' ' ∷ r))
              ∙ t)))
  composite_unique letter sign letter' sign' (cons f (cons h fs)) (cons g nil) r r' l l' ne ds m m'
        e =
      absurd m'
  composite_unique letter sign letter' sign' (cons f (cons h fs)) (cons g (cons k gs)) r r' l l' ne
        ds m m' e =
      let x = print_loop decimal (b' ' ∷ sign ∷ b' ' ∷ []) in
      let y = print_loop decimal (b' ' ∷ sign' ∷ b' ' ∷ []) in
      let t = tail_eq₂ b'{' b' ' b'{' b' ' _ _ e in
      let (p, u) = ds.0 g _ _ m.0 m'.0 (
        sym (open_loop sign (print decimal f) h fs (b' ' ∷ b'}' ∷ b' ' ∷ r))
        ∙ (sym (append_assoc (x (print decimal f) (cons h fs)) (b' ' ∷ b'}' ∷ []) (b' ' ∷ r))
            ∙ (t
                ∙ (append_assoc (y (print decimal g) (cons k gs)) (b' ' ∷ b'}' ∷ []) (b' ' ∷ r')
                    ∙ open_loop sign' (print decimal g) k gs (b' ' ∷ b'}' ∷ b' ' ∷ r'))))) in
      let same_sign = head_eq sign sign' _ _ u in
      let rest = tail_eq₂ sign b' ' sign' b' ' _ _ u in
      let (q, qs, s) =
        loop_unique sign h k fs gs (b' ' ∷ r) (b' ' ∷ r') ne ds.1.0 ds.1.1 m.1 m'.1 m.2 m'.2 (
          subst
            (λ c.
              print_loop decimal (b' ' ∷ sign ∷ b' ' ∷ []) (print decimal h) fs
                ++ (b' ' ∷ b'}' ∷ b' ' ∷ r)
              ≡ print_loop decimal (b' ' ∷ c ∷ b' ' ∷ []) (print decimal k) gs
                ++ (b' ' ∷ b'}' ∷ b' ' ∷ r'))
            (sym same_sign) rest) in
      (inr same_sign, cc, tail_eq b' ' b' ' r r' s)
