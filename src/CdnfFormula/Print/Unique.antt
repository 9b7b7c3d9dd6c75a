-- ===== src/CdnfFormula/Print/Unique.antt =====
-- Texts of elements that are read back in one way only, as the printing loops of cdnfformula.c make
-- them: from the last element to the first, with separators, and a closing bracket.
use dorder.Prelude.{
  ℕ, zero, suc, ◌≤◌, ◌<◌, ◌≡◌, ◌≢◌, refl, sym, ap, ◌∙◌, subst, List, [], ◌∷◌, ◌++◌, arith, length,
  get_or,
}
use native.Mathlib.Decide.{dec_lt}
use mathlib.Core.List.{append_assoc}
use dorder.BoolFormula.Decimal.{IsUnique, StartsNot, head_eq, tail_eq}

-- The element at an index, of a list that begins with `x`.
abbrev pub at : {A : Type 0} → A → List A → ℕ → A
at x xs i = get_or (x ∷ xs) i x

module _ {A : Type 0} (pr : A → List ℕ) (s : ℕ) (separator : List ℕ) where
  -- The elements from the index `i` down to 0.
  abbrev pub body : (ℕ → A) → ℕ → List ℕ
  body el zero = pr (el 0)
  body el (suc i) = pr (el (suc i)) ++ ((b' ' ∷ s ∷ separator) ++ body el i)

  -- One step into a body.
  open_body :
      (el : ℕ → A) (i : ℕ) (t : List ℕ)
      → body el (suc i) ++ t ≡ pr (el (suc i)) ++ (b' ' ∷ s ∷ (separator ++ (body el i ++ t)))
  open_body el i t =
      append_assoc (pr (el (suc i))) ((b' ' ∷ s ∷ separator) ++ body el i) t
      ∙ ap (λ w. pr (el (suc i)) ++ (b' ' ∷ s ∷ w)) (append_assoc separator (body el i) t)

-- A whole text: in its brackets the elements, or a letter where there are none.
module _ {A : Type 0} (pr : A → List ℕ) (s : ℕ) (separator : List ℕ) (c : ℕ) (close : List ℕ)
    (m o z : ℕ) where
  abbrev pub whole : List A → List ℕ
  whole [] = o ∷ b' ' ∷ m ∷ b' ' ∷ z ∷ []
  whole (x ∷ xs) = o ∷ b' ' ∷ (body pr s separator (at x xs) (length xs) ++ (b' ' ∷ c ∷ close))

module _ {A : Type 0} (pr : A → List ℕ) (unique : IsUnique pr) (s c : ℕ) (apart : s ≢ c)
    (separator close : List ℕ) where
  cancel : (x y z : List ℕ) → x ++ y ≡ x ++ z → y ≡ z
  cancel [] y z e = e
  cancel (a ∷ x) y z e = cancel x y z (tail_eq a a (x ++ y) (x ++ z) e)

  abbrev Agree : (ℕ → A) → (ℕ → A) → ℕ → Type 0
  Agree el el' i = (k : ℕ) → k ≤ i → el k ≡ el' k

  pub body_unique :
      (el el' : ℕ → A) (i j : ℕ) (r r' : List ℕ)
      → body pr s separator el i ++ (b' ' ∷ c ∷ (close ++ r))
        ≡ body pr s separator el' j ++ (b' ' ∷ c ∷ (close ++ r'))
      → (i ≡ j) × Agree el el' i × (r ≡ r')
  body_unique el el' zero zero r r' e =
      let (a, t) = unique (el 0) (el' 0) (c ∷ (close ++ r)) (c ∷ (close ++ r')) e in
      (refl, at_zero a, cancel close r r' (tail_eq c c (close ++ r) (close ++ r') t))
    where
      at_zero : el 0 ≡ el' 0 → Agree el el' 0
      at_zero a zero h = a
      at_zero a (suc k) h = absurd (omega arith)
  body_unique el el' zero (suc j) r r' e =
      let (_, t) =
        unique (el 0) (el' (suc j)) (c ∷ (close ++ r))
          (s ∷ (separator ++ (body pr s separator el' j ++ (b' ' ∷ c ∷ (close ++ r')))))
          (e ∙ open_body pr s separator el' j (b' ' ∷ c ∷ (close ++ r'))) in
      absurd (
        apart (
          sym (
            head_eq c s (close ++ r)
              (separator ++ (body pr s separator el' j ++ (b' ' ∷ c ∷ (close ++ r')))) t)))
  body_unique el el' (suc i) zero r r' e =
      let (_, t) =
        unique (el (suc i)) (el' 0)
          (s ∷ (separator ++ (body pr s separator el i ++ (b' ' ∷ c ∷ (close ++ r)))))
          (c ∷ (close ++ r')) (sym (open_body pr s separator el i (b' ' ∷ c ∷ (close ++ r))) ∙ e) in
      absurd (
        apart (
          head_eq s c (separator ++ (body pr s separator el i ++ (b' ' ∷ c ∷ (close ++ r))))
            (close ++ r') t))
  body_unique el el' (suc i) (suc j) r r' e =
      let x = body pr s separator el i ++ (b' ' ∷ c ∷ (close ++ r)) in
      let y = body pr s separator el' j ++ (b' ' ∷ c ∷ (close ++ r')) in
      let (a, t) = unique (el (suc i)) (el' (suc j)) (s ∷ (separator ++ x)) (s ∷ (separator ++ y)) (
        sym (open_body pr s separator el i (b' ' ∷ c ∷ (close ++ r)))
        ∙ (e ∙ open_body pr s separator el' j (b' ' ∷ c ∷ (close ++ r')))) in
      let (k, agree, t') =
        body_unique el el' i j r r'
          (cancel separator x y (tail_eq s s (separator ++ x) (separator ++ y) t)) in
      (ap suc k, at_suc k a agree, t')
    where
      at_suc : i ≡ j → el (suc i) ≡ el' (suc j) → Agree el el' i → Agree el el' (suc i)
      at_suc k a agree m h = elim (dec_lt m (suc i)) [
        | yes lower ↦ agree m (omega arith)
        | no top ↦
            let at_top : suc i ≡ m = omega arith in
            subst (λ n. el n ≡ el' n) at_top (a ∙ ap (λ n. el' (suc n)) (sym k))
      ]

  eq_of_agree :
      (x y d : A) (xs ys : List A)
      → length xs ≡ length ys
      → ((k : ℕ) → k < length xs → get_or xs k x ≡ get_or ys k y)
      → xs ≡ ys
  eq_of_agree x y d [] [] e h = refl
  eq_of_agree x y d [] (b ∷ ys) e h = absurd (omega arith)
  eq_of_agree x y d (a ∷ xs) [] e h = absurd (omega arith)
  eq_of_agree x y d (a ∷ xs) (b ∷ ys) e h =
      let here = h 0 (omega arith) in
      let rest = eq_of_agree x y d xs ys (omega arith) (λ k p. h (suc k) (omega arith)) in cc

  module _ (m o z : ℕ) (starts : StartsNot pr m) where
    body-starts : (el : ℕ → A) (i : ℕ) → StartsNot {A = Unit {0}} (λ u. body pr s separator el i) m
    body-starts el zero u r r' e = starts (el 0) r r' e
    body-starts el (suc i) u r r' e =
        starts (el (suc i)) _ r' (sym (open_body pr s separator el i r) ∙ e)

    pub whole_unique :
        (v w : List A) (r r' : List ℕ)
        → whole pr s separator c close m o z v ++ r ≡ whole pr s separator c close m o z w ++ r'
        → (v ≡ w) × (r ≡ r')
    whole_unique [] [] r r' e = (refl, five e)
      where
        five : o ∷ b' ' ∷ m ∷ b' ' ∷ z ∷ r ≡ o ∷ b' ' ∷ m ∷ b' ' ∷ z ∷ r' → r ≡ r'
        five q = cc
    whole_unique [] (y ∷ ys) r r' e = absurd (
        body-starts (at y ys) (length ys) tt _ _ (
          sym (append_assoc (body pr s separator (at y ys) (length ys)) (b' ' ∷ c ∷ close) r')
          ∙ sym (two _ _ e)))
      where
        two : (p q : List ℕ) → o ∷ b' ' ∷ p ≡ o ∷ b' ' ∷ q → p ≡ q
        two p q h = cc
    whole_unique (x ∷ xs) [] r r' e = absurd (
        body-starts (at x xs) (length xs) tt _ _ (
          sym (append_assoc (body pr s separator (at x xs) (length xs)) (b' ' ∷ c ∷ close) r)
          ∙ two _ _ e))
      where
        two : (p q : List ℕ) → o ∷ b' ' ∷ p ≡ o ∷ b' ' ∷ q → p ≡ q
        two p q h = cc
    whole_unique (x ∷ xs) (y ∷ ys) r r' e =
        let inner =
          sym (append_assoc (body pr s separator (at x xs) (length xs)) (b' ' ∷ c ∷ close) r)
          ∙ (two _ _ e
              ∙ append_assoc (body pr s separator (at y ys) (length ys)) (b' ' ∷ c ∷ close) r') in
        let (len, agree, rest) =
          body_unique (at x xs) (at y ys) (length xs) (length ys) r r' inner in
        (eq_of_agree x y x (x ∷ xs) (y ∷ ys) (ap suc len) (λ k p. agree k (omega arith)), rest)
      where
        two : (p q : List ℕ) → o ∷ b' ' ∷ p ≡ o ∷ b' ' ∷ q → p ≡ q
        two p q h = cc
