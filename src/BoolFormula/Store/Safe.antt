-- ===== src/BoolFormula/Store/Safe.antt =====
-- `boolformula_free` of boolformula.c as a whole, and what the other operations do to the counts.
use dorder.Prelude.{
  ℕ, zero, suc, ◌+◌, ◌-◌, ◌≤◌, ◌<◌, ◌≡◌, ◌≢◌, refl, sym, ap, subst, ◌∙◌, Bool, true, false, List,
  [], ◌∷◌, done, arith, lt→ltb, le→ltb, length, set, length-set, ◌>>=◌, Bool-cases, inl, inr,
}
use native.Mathlib.Decide.{ℕ_discrete, dec_lt}
use dorder.BoolFormula.Store.{
  Ptr, Content, Cell, freed, node, Store, slots, for_slots, release, free,
}
use dorder.BoolFormula.Store.Count.{
  cell_slots, one_if, is_live, live_count, live_count-set, live_count-le, at, at-lt, eq_of_cells,
}
use dorder.BoolFormula.Store.Free.{
  IsFilled, IsAccounted, load-done, at-set_self, at-set_ne, Frees, Within, Frees-call,
  for_slots-Frees,
}
use dorder.BoolFormula.Store.Calls.{held-live, drop-IsAccounted, last-IsAccounted, Frees-set}

release-done :
    (s : Store) (p : Ptr) {ref : ℕ} {c : Content}
    → at s p ≡ node ref c
    → release p s ≡ done (set s p freed)
unfolding release
release-done s p e = rw (load-done s p e) refl

fewer-set :
    (m : Store) (g : Ptr) (d : Cell)
    → is_live (at m g) ≡ true
    → (live_count (set m g d) ≤ live_count m) × (live_count (set m g freed) < live_count m)
fewer-set m g d live =
    let a = live_count-set m g d (at-lt m g live) in
    let b = live_count-set m g freed (at-lt m g live) in
    (at_most (is_live d) (rw live at a), omega (arith, rw live at b))
  where
    at_most :
        (b : Bool)
        → live_count (set m g d) + one_if true ≡ live_count m + one_if b
        → live_count (set m g d) ≤ live_count m
    at_most true e = omega arith
    at_most false e = omega arith

pub free_more :
    (fuel : ℕ) (g : Ptr) (s : Store) (ref : ℕ) (c : Content)
    → at s g ≡ node ref c
    → 1 < ref
    → free (suc fuel) g s ≡ done (set s g (node (ref - 1) c))
unfolding free
free_more fuel g s ref c e h = rw (load-done s g e) (rw (lt→ltb 1 ref h, ◌>>=◌) refl)

pub free_last :
    (fuel : ℕ) (g : Ptr) (s s₁ : Store) (ref : ℕ) (c : Content)
    → at s g ≡ node ref c
    → ref ≤ 1
    → for_slots (free fuel) g 0 (length (slots c)) s ≡ done s₁
    → at s₁ g ≡ node ref c
    → free (suc fuel) g s ≡ done (set s₁ g freed)
unfolding free
free_last fuel g s s₁ ref c e h loop e₁ =
    rw (load-done s g e) (rw (le→ltb 1 ref h, ◌>>=◌) (rw loop (release-done s₁ g e₁)))

-- The object goes from the store, too.
Frees-last :
    (m s : Store) (g : Ptr) (m₁ s₁ : Store)
    → is_live (at m g) ≡ true
    → Frees (set m g freed) s m₁ s₁
    → is_live (at s₁ g) ≡ true
    → Frees m s m₁ (set s₁ g freed)
Frees-last m s g m₁ s₁ live f there = record {
  objects = λ q e. elim (ℕ_discrete g q) [
    | yes at_g ↦
        subst (λ p. at (set s₁ g freed) p ≡ at m₁ p) at_g
          (at-set_self s₁ g freed there
            ∙ sym (f.others g (ap is_live (at-set_self m g freed live))).0)
    | no ne ↦ at-set_ne s₁ g q freed ne ∙ f.objects q (ap is_live (at-set_ne m g q freed ne) ∙ e)
  ];
  others = λ q e.
      let ne : g ≢ q = λ at_g. clash (sym live ∙ (ap (λ p. is_live (at m p)) at_g ∙ e)) in
      let (a, b) = f.others q (ap is_live (at-set_ne m g q freed ne) ∙ e) in
      (a, at-set_ne s₁ g q freed ne ∙ b);
  size = f.size ∙ length-set m g freed;
  fewer = omega (arith, f.fewer, (fewer-set m g freed live).0);
}
  where
    clash : true ≡ false → ⊥
    clash p = cc

not_live : true ≡ false → ⊥
not_live p = cc

module _ (lost : Ptr → ℕ) where
  -- What a call that gives up `g` has to do here.
  abbrev Frees-at : ℕ → Ptr → Store → Store → List Ptr → Type 0
  Frees-at fuel g m s held =
      (s' : Store) × (m' : Store) × (free fuel g s ≡ done s')
      × IsAccounted lost m' held
      × Frees m s m' s'
      × (length s' ≡ length s)

  module _ (fuel : ℕ) (g : Ptr) (m s : Store) (held : List Ptr)
      (acc : IsAccounted lost m (g ∷ held)) (within : Within m s) (live : is_live (at m g) ≡ true)
      (ref : ℕ) (c : Content) (e : at m g ≡ node ref c) where
    -- The object has other holders.
    more-Frees : 1 < ref → Frees-at (suc fuel) g m s held
    more-Frees more =
        let d = node (ref - 1) c in
        (
          set s g d,
          set m g d,
          free_more fuel g s ref c (within g live ∙ e) more,
          drop-IsAccounted lost m g held acc ref c e,
          Frees-set m s g live within d (fewer-set m g d live).0,
          length-set s g d,
        )

    -- The pointer was the last.
    last-Frees :
        ref ≤ 1
        → Frees-call lost (free fuel) fuel
        → length s ≡ length m
        → live_count m < suc fuel
        → Frees-at (suc fuel) g m s held
    last-Frees few ih len b =
        let here = within g live ∙ e in
        let (le, lt) = fewer-set m g freed live in
        let m₀ = set m g freed in
        let gone : is_live (at m₀ g) ≡ false = ap is_live (at-set_self m g freed live) in
        let within₀ : Within m₀ s = (λ q alive.
          let ne : g ≢ q =
            λ at_g. not_live (sym alive ∙ (ap (λ p. is_live (at m₀ p)) (sym at_g) ∙ gone)) in
          let same = at-set_ne m g q freed ne in
          within q (sym (ap is_live same) ∙ alive) ∙ sym same) in
        let (s₁, m₁, r, acc₁, f, l) =
          for_slots-Frees lost (free fuel) fuel ih (slots c) [] g ref c m₀ s held refl
            (subst (λ d. IsFilled (cell_slots d)) e (acc.filled g)) here gone
            (last-IsAccounted lost m g held acc ref c e few) within₀
            (len ∙ sym (length-set m g freed)) (omega arith) in
        let (g_gone, kept) = f.others g gone in
        (
          set s₁ g freed,
          m₁,
          free_last fuel g s s₁ ref c here few r (kept ∙ here),
          acc₁,
          Frees-last m s g m₁ s₁ live f (ap is_live (kept ∙ here)),
          length-set s₁ g freed ∙ l,
        )

  free-Frees : (fuel : ℕ) → Frees-call lost (free fuel) fuel
  free-Frees zero g m s held acc within len b = absurd (omega arith)
  free-Frees (suc fuel) g m s held acc within len b = cases (free-Frees fuel) (at m g) refl
    where
      live : is_live (at m g) ≡ true
      live = held-live lost m g held acc

      cases :
          Frees-call lost (free fuel) fuel
          → (c : Cell) → at m g ≡ c
          → Frees-at (suc fuel) g m s held
      cases ih freed e = absurd (not_live (sym live ∙ ap is_live e))
      cases ih (node ref c) e = elim (dec_lt 1 ref) [
        | yes more ↦ more-Frees fuel g m s held acc within live ref c e more
        | no few ↦ last-Frees fuel g m s held acc within live ref c e (omega arith) ih len b
      ]

  -- From a store with right counts and filled slots, `boolformula_free` of a pointer that is held
  -- ends: it reads no object that was freed and frees none twice. The counts are right again without
  -- that holder; no reference is lost.
  pub free-IsAccounted :
      (s : Store) (g : Ptr) (held : List Ptr) (fuel : ℕ)
      → IsAccounted lost s (g ∷ held)
      → length s < fuel
      → (s' : Store) × (free fuel g s ≡ done s') × IsAccounted lost s' held
  free-IsAccounted s g held fuel acc b =
      let (s', m', r, acc', f, l) =
        free-Frees fuel g s s held acc (λ q e. refl) refl (omega (arith, live_count-le s)) in
      let same : (q : Ptr) → at s' q ≡ at m' q = (λ q. elim (Bool-cases (is_live (at s q))) [
        | inl e ↦ f.objects q e
        | inr e ↦ let (a, b) = f.others q e in b ∙ (freed_of (at s q) e ∙ sym a)
      ]) in
      (
        s',
        r,
        subst (λ t. IsAccounted lost t held) (sym (eq_of_cells s' m' (l ∙ sym f.size) same)) acc',
      )
    where
      freed_of : (c : Cell) → is_live c ≡ false → c ≡ freed
      freed_of freed h = refl
      freed_of (node ref c) h = cc
