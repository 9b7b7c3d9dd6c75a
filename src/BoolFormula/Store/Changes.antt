-- ===== src/BoolFormula/Store/Changes.antt =====
-- The functions of boolformula.c that make and change objects, and the reference counts.
use dorder.Prelude.{
  ℕ, zero, suc, ◌+◌, ◌<◌, ◌≡◌, ◌≢◌, refl, sym, ap, subst, ◌∙◌, true, List, [], ◌∷◌, ◌++◌, done,
  arith, length, set, length-set, get_or-ge, length-append,
}
use native.Mathlib.Decide.{ℕ_discrete, dec_lt}
use dorder.BoolFormula.Store.{Ptr, Content, Cell, freed, node, Store, slots, load, malloc, retain}
use dorder.BoolFormula.Store.Count.{
  IsCounted, pointers, count, cell_slots, cell_ref, is_live, cell_count, in_refs, at,
  in_refs-append, in_refs-set, at-lt,
}
use dorder.BoolFormula.Store.Free.{load-done}
use dorder.BoolFormula.Store.Calls.{count_self, count_ne, at-set-elim}

pub live_of_ref : (s : Store) (p : Ptr) → 0 < cell_ref (at s p) → is_live (at s p) ≡ true
live_of_ref s p h = cases (at s p) h
  where
    cases : (c : Cell) → 0 < cell_ref c → is_live c ≡ true
    cases freed h = absurd (omega arith)
    cases (node ref c) h = refl

pub node_of : (c : Cell) → is_live c ≡ true → (ref : ℕ) × (d : Content) × (c ≡ node ref d)
node_of freed e = cc
node_of (node ref d) e = (ref, d, refl)

-- Reading and its inverse.
pub load-at :
    (s : Store) (p : Ptr) {ref : ℕ} {c : Content} → load s p ≡ done (ref, c) → at s p ≡ node ref c
unfolding load
load-at [] p e = cc
load-at (freed ∷ s) zero e = cc
load-at (node ref c ∷ s) zero e = cc
load-at (d ∷ s) (suc p) e = load-at s p e

pub at-append_lt : (s t : Store) (p : Ptr) → p < length s → at (s ++ t) p ≡ at s p
at-append_lt [] t p h = absurd (omega arith)
at-append_lt (c ∷ s) t zero h = refl
at-append_lt (c ∷ s) t (suc p) h = at-append_lt s t p (omega arith)

pub at-append_self : (s : Store) (c : Cell) → at (s ++ c ∷ []) (length s) ≡ c
at-append_self [] c = refl
at-append_self (d ∷ s) c = at-append_self s c

module _ (lost : Ptr → ℕ) (s : Store) (held : List Ptr) (acc : IsCounted lost s held) where
  -- A new object is held once.
  pub malloc-IsCounted :
      (c : Content) → pointers (slots c) ≡ [] → IsCounted lost (malloc c s).1 (length s ∷ held)
  malloc-IsCounted c empty p = elim (ℕ_discrete (length s) p) [
    | yes e ↦
        subst (λ q. cell_ref (at s' q) ≡ in_refs q s' + count q (length s ∷ held) + lost q) e
          (omega (
            arith,
            acc (length s),
            ap cell_ref (get_or-ge s (length s) freed (omega arith)),
            ap cell_ref (at-append_self s (node 1 c)),
            in_refs-append (length s) s (node 1 c ∷ []),
            ap (count (length s)) empty,
            count_self (length s) held,
          ))
    | no ne ↦ omega (
      arith,
      acc p,
      elsewhere p ne,
      in_refs-append p s (node 1 c ∷ []),
      ap (count p) empty,
      count_ne p (length s) held (λ e. ne (sym e)),
    )
  ]
    where
      s' : Store
      s' = s ++ node 1 c ∷ []

      elsewhere : (p : Ptr) → length s ≢ p → cell_ref (at s' p) ≡ cell_ref (at s p)
      elsewhere p ne = elim (dec_lt p (length s)) [
        | yes h ↦ ap cell_ref (at-append_lt s (node 1 c ∷ []) p h)
        | no h ↦
            ap cell_ref (get_or-ge s' p freed (omega (arith, length-append s (node 1 c ∷ []))))
            ∙ sym (ap cell_ref (get_or-ge s p freed (omega arith)))
      ]

  -- A holder that forgets its pointer loses a reference.
  pub forget-IsCounted :
      (p : Ptr) (rest : List Ptr)
      → ((q : Ptr) → count q held ≡ count q (p ∷ rest))
      → IsCounted (λ q. lost q + count q (p ∷ [])) s rest
  forget-IsCounted p rest e q = omega (arith, acc q, e q)

  -- One more holder of an object.
  pub retain-IsCounted :
      (g : Ptr)
      → is_live (at s g) ≡ true
      → (s' : Store) × (retain g s ≡ done s')
        × IsCounted lost s' (g ∷ held)
        × (length s' ≡ length s)
        × ((p : Ptr) → cell_slots (at s' p) ≡ cell_slots (at s p))
  unfolding retain
  retain-IsCounted g live =
      let (ref, c, e) = node_of (at s g) live in
      let d = node (ref + 1) c in
      let inside = at-lt s g live in
      (
        set s g d,
        rw (load-done s g e) refl,
        at-set-elim s g d live
            (λ q x. cell_ref x ≡ in_refs q (set s g d) + count q (g ∷ held) + lost q)
            (omega (
              arith,
              acc g,
              ap cell_ref e,
              in_refs-set g s g d inside,
              ap (cell_count g) e,
              count_self g held,
            ))
            (λ q ne. omega (
              arith,
              acc q,
              in_refs-set q s g d inside,
              ap (cell_count q) e,
              count_ne q g held (λ x. ne (sym x)),
            )),
        length-set s g d,
        at-set-elim s g d live (λ q x. cell_slots x ≡ cell_slots (at s q)) (sym (ap cell_slots e))
            (λ q ne. refl),
      )

  -- Writing `g` to a slot of `f`, where `gone` stood before.
  pub store-IsCounted :
      (f g : Ptr) (ref : ℕ) (c c' : Content) (gone : List Ptr)
      → at s f ≡ node ref c
      → is_live (at s g) ≡ true
      → ((p : Ptr)
          → count p (pointers (slots c')) + count p gone
            ≡ count p (pointers (slots c)) + count p (g ∷ []))
      → (s' : Store) × (retain g (set s f (node ref c')) ≡ done s')
        × IsCounted (λ p. lost p + count p gone) s' held
  unfolding retain
  store-IsCounted f g ref c c' gone e live step =
      let live_f = ap is_live e in
      let s₁ = set s f (node ref c') in
      let live₁ : is_live (at s₁ g) ≡ true =
        at-set-elim s f (node ref c') live_f (λ q x. is_live (at s q) ≡ true → is_live x ≡ true)
          (λ h. refl) (λ q ne h. h) g live in
      let (r₁, c₁, e₁) = node_of (at s₁ g) live₁ in
      let d = node (r₁ + 1) c₁ in
      let inside = at-lt s₁ g live₁ in
      let counts : (p : Ptr) → in_refs p s₁ + count p gone ≡ in_refs p s + count p (g ∷ []) = (λ p.
        omega (
          arith,
          in_refs-set p s f (node ref c') (at-lt s f live_f),
          ap (cell_count p) e,
          step p,
        )) in
      let refs : (p : Ptr) → cell_ref (at s₁ p) ≡ cell_ref (at s p) =
        at-set-elim s f (node ref c') live_f (λ q x. cell_ref x ≡ cell_ref (at s q))
          (sym (ap cell_ref e)) (λ q ne. refl) in
      (
        set s₁ g d,
        rw (load-done s₁ g e₁) refl,
        at-set-elim s₁ g d live₁
            (λ q x. cell_ref x ≡ in_refs q (set s₁ g d) + count q held + (lost q + count q gone))
            (omega (
              arith,
              acc g,
              refs g,
              counts g,
              ap cell_ref e₁,
              in_refs-set g s₁ g d inside,
              ap (cell_count g) e₁,
              count_self g [],
            ))
            (λ q ne. omega (
              arith,
              acc q,
              refs q,
              counts q,
              in_refs-set q s₁ g d inside,
              ap (cell_count q) e₁,
              count_ne q g [] (λ x. ne (sym x)),
            )),
      )
