-- ===== src/BoolFormula/Store/Calls.antt =====
-- `boolformula_free` of boolformula.c, call by call: its two branches and the recursion.
use dorder.Prelude.{
  ℕ, suc, ◌+◌, ◌-◌, ◌≤◌, ◌<◌, ◌≡◌, ◌≢◌, refl, sym, ap, subst, ◌∙◌, Bool, true, false, List, ◌∷◌,
  ◌++◌, arith, set, length-set, ==_refl, ne→==,
}
use native.Mathlib.Decide.{ℕ_discrete}
use dorder.BoolFormula.Store.{Ptr, Content, Cell, freed, node, Store, slots}
use dorder.BoolFormula.Store.Count.{
  IsCounted, pointers, count, cell_slots, cell_ref, is_live, cell_count, in_refs, live_count, at,
  count-append, in_refs-set, at-lt,
}
use dorder.BoolFormula.Store.Free.{IsFilled, IsAccounted, at-set_self, at-set_ne, Frees, Within}

pub count_self : (p : Ptr) (held : List Ptr) → count p (p ∷ held) ≡ suc (count p held)
count_self p held = rw (==_refl p) (omega arith)

pub count_ne : (p q : Ptr) (held : List Ptr) → p ≢ q → count p (q ∷ held) ≡ count p held
count_ne p q held h = rw (ne→== p q h) (omega arith)

-- One object of the store, and what stands there after a write.
module _ (s : Store) (g : Ptr) (d : Cell) (live : is_live (at s g) ≡ true) where
  -- What holds of the cell written and of all others holds of each.
  pub at-set-elim :
      (P : Ptr → Cell → Type 0)
      → P g d
      → ((p : Ptr) → g ≢ p → P p (at s p))
      → (p : Ptr) → P p (at (set s g d) p)
  at-set-elim P here there p = elim (ℕ_discrete g p) [
    | yes e ↦
        subst (λ q. P q (at (set s g d) q)) e (subst (P g) (sym (at-set_self s g d live)) here)
    | no ne ↦ subst (P p) (sym (at-set_ne s g p d ne)) (there p ne)
  ]

module _ (m s : Store) (g : Ptr) (live : is_live (at m g) ≡ true) (within : Within m s)
    (d : Cell) where
  live_in : is_live (at s g) ≡ true
  live_in = ap is_live (within g live) ∙ live

  -- The same write in the ghost and in the store.
  pub Frees-set : live_count (set m g d) ≤ live_count m → Frees m s (set m g d) (set s g d)
  Frees-set le = record {
    objects = λ q e. elim (ℕ_discrete g q) [
      | yes at_g ↦
          subst (λ p. at (set s g d) p ≡ at (set m g d) p) at_g
            (at-set_self s g d live_in ∙ sym (at-set_self m g d live))
      | no ne ↦ at-set_ne s g q d ne ∙ (within q e ∙ sym (at-set_ne m g q d ne))
    ];
    others = λ q gone.
        let ne : g ≢ q = λ e. not_both (ap (λ p. is_live (at m p)) e ∙ gone) live in
        (at-set_ne m g q d ne ∙ freed_at q gone, at-set_ne s g q d ne);
    size = length-set m g d;
    fewer = le;
  }
    where
      not_both : {b : Bool} → b ≡ false → b ≡ true → ⊥
      not_both p q = cc

      freed_at : (q : Ptr) → is_live (at m q) ≡ false → at m q ≡ freed
      freed_at q e = freed_of (at m q) e
        where
          freed_of : (c : Cell) → is_live c ≡ false → c ≡ freed
          freed_of freed h = refl
          freed_of (node ref c) h = cc

module _ (lost : Ptr → ℕ) (m : Store) (g : Ptr) (held : List Ptr)
    (acc : IsCounted lost m (g ∷ held)) (ref : ℕ) (c : Content) (here : at m g ≡ node ref c) where
  live_here : is_live (at m g) ≡ true
  live_here = ap is_live here

  ref_at : ref ≡ in_refs g m + suc (count g held) + lost g
  ref_at = sym (ap cell_ref here) ∙ (acc g ∙ ap (λ n. in_refs g m + n + lost g) (count_self g held))

  -- The counts after a write to the object, one by one.
  written-IsCounted :
      (d : Cell) (held' : List Ptr)
      → cell_ref d + cell_count g (at m g) + count g (g ∷ held)
        ≡ ref + cell_count g d + count g held'
      → ((q : Ptr) → g ≢ q → cell_count q (at m g) + count q held ≡ cell_count q d + count q held')
      → IsCounted lost (set m g d) held'
  written-IsCounted d held' at_g elsewhere =
      at-set-elim m g d live_here
        (λ q e. cell_ref e ≡ in_refs q (set m g d) + count q held' + lost q)
        (omega (arith, ref_at, count_self g held, at_g, in_refs-set g m g d (at-lt m g live_here)))
        (λ q ne. omega (
          arith,
          acc q,
          elsewhere q ne,
          in_refs-set q m g d (at-lt m g live_here),
          count_ne q g held (λ e. ne (sym e)),
        ))

  -- One holder less.
  pub drop-IsCounted : IsCounted lost (set m g (node (ref - 1) c)) held
  drop-IsCounted =
      written-IsCounted (node (ref - 1) c) held
        (omega (arith, ref_at, ap (cell_count g) here, count_self g held))
        (λ q ne. omega (arith, ap (cell_count q) here))

  -- The last holder: the object goes, and its slots are held.
  pub last-IsCounted : ref ≤ 1 → IsCounted lost (set m g freed) (pointers (slots c) ++ held)
  last-IsCounted le =
      written-IsCounted freed (pointers (slots c) ++ held)
        (omega (
          arith,
          ref_at,
          ap (cell_count g) here,
          count_self g held,
          count-append g (pointers (slots c)) held,
        ))
        (λ q ne. omega (arith, ap (cell_count q) here, count-append q (pointers (slots c)) held))

module _ (lost : Ptr → ℕ) (m : Store) (g : Ptr) (held : List Ptr)
    (acc : IsAccounted lost m (g ∷ held)) where
  -- A pointer that is held is that of an object.
  pub held-live : is_live (at m g) ≡ true
  held-live = positive (at m g) (omega (arith, acc.counted g, count_self g held))
    where
      positive : (c : Cell) → 0 < cell_ref c → is_live c ≡ true
      positive freed h = absurd (omega arith)
      positive (node ref c) h = refl

  module _ (ref : ℕ) (c : Content) (here : at m g ≡ node ref c) where
    pub drop-IsAccounted : IsAccounted lost (set m g (node (ref - 1) c)) held
    drop-IsAccounted = record {
      counted = drop-IsCounted lost m g held acc.counted ref c here;
      filled =
          at-set-elim m g (node (ref - 1) c) held-live (λ q e. IsFilled (cell_slots e))
            (subst (λ e. IsFilled (cell_slots e)) here (acc.filled g)) (λ q ne. acc.filled q);
    }

    pub last-IsAccounted : ref ≤ 1 → IsAccounted lost (set m g freed) (pointers (slots c) ++ held)
    last-IsAccounted le = record {
      counted = last-IsCounted lost m g held acc.counted ref c here le;
      filled =
          at-set-elim m g freed held-live (λ q e. IsFilled (cell_slots e)) tt
            (λ q ne. acc.filled q);
    }
