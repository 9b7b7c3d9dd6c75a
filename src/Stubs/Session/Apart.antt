-- ===== src/Stubs/Session/Apart.antt =====
-- Objects that OCaml code cannot reach: what the functions of boolformula.c leave alone.
use dorder.Prelude.{
  ℕ, zero, suc, ◌+◌, ◌-◌, ◌≤◌, ◌<◌, ◌≡◌, refl, sym, ap, subst, ◌∙◌, true, [], ◌∷◌, ◌++◌, Run, done,
  >>=-eq-done, arith, length, set, length-set, length-append, get_or-ge, ltb, Bool-cases, inl, inr,
}
use native.Mathlib.Decide.{ℕ_discrete, dec_lt}
use dorder.BoolFormula.Store.{
  Ptr, Content, Cell, freed, node, Store, slots, load, retain, read_slot, for_slots, release, free,
}
use dorder.BoolFormula.Store.Count.{pointers, count, cell_slots, is_live, at}
use dorder.BoolFormula.Store.Free.{at-set_ne}
use dorder.BoolFormula.Store.Calls.{at-set-elim}
use dorder.BoolFormula.Store.Changes.{load-at, at-append_lt, at-append_self}
use dorder.Stubs.Handles.{val_boolformula}
use dorder.Stubs.Session.Counts.{slot-count, same_pair}

pub same_store : {s t : Store} → done s ≡ done t → s ≡ t
same_store e = cc

module _ (R : Ptr → Type 0) where
  -- No object but those of `R` has a slot for one of these.
  abbrev pub IsClosed : Store → Type 0
  IsClosed s = (q : Ptr) → ¬ R q → (p : Ptr) → 0 < count p (pointers (cell_slots (at s q))) → ¬ R p

  pub record Keeps (s s' : Store) : Type 0 where
    pub same : (r : Ptr) → R r → at s' r ≡ at s r
    pub closed : IsClosed s'
    pub size : length s ≤ length s'

  pub Keeps-refl : (s : Store) → IsClosed s → Keeps s s
  Keeps-refl s c = record { same = λ r h. refl; closed = c; size = omega arith }

  pub Keeps-trans : (s s₁ s' : Store) → Keeps s s₁ → Keeps s₁ s' → Keeps s s'
  Keeps-trans s s₁ s' k l = record {
    same = λ r h. l.same r h ∙ k.same r h;
    closed = l.closed;
    size = omega (arith, k.size, l.size);
  }

  pub set-Keeps :
      (s : Store) (g : Ptr) (d : Cell)
      → is_live (at s g) ≡ true
      → ¬ R g
      → IsClosed s
      → ((p : Ptr) → 0 < count p (pointers (cell_slots d)) → ¬ R p)
      → Keeps s (set s g d)
  set-Keeps s g d live out closed h = record {
    same = λ r z. at-set_ne s g r d (λ e. out (subst R (sym e) z));
    closed =
        at-set-elim s g d live
          (λ q x. ¬ R q → (p : Ptr) → 0 < count p (pointers (cell_slots x)) → ¬ R p) (λ z. h)
          (λ q ne. closed q);
    size = omega (arith, length-set s g d);
  }

  -- What the slots of a live object hold.
  pub slots-out :
      (s : Store) (g : Ptr) {ref : ℕ} {c : Content}
      → at s g ≡ node ref c
      → ¬ R g
      → IsClosed s
      → (p : Ptr) → 0 < count p (pointers (slots c))
      → ¬ R p
  slots-out s g e out closed p h = closed g out p (rw e h)

  pub malloc-Keeps :
      (s : Store) (c : Content)
      → pointers (slots c) ≡ []
      → ((r : Ptr) → R r → r < length s)
      → IsClosed s
      → Keeps s (s ++ node 1 c ∷ [])
  malloc-Keeps s c empty room closed = record {
    same = λ r h. at-append_lt s (node 1 c ∷ []) r (room r h);
    closed = λ q out p h. elim (dec_lt q (length s)) [
      | yes z ↦ closed q out p (
          subst (λ x. 0 < count p (pointers (cell_slots x))) (at-append_lt s (node 1 c ∷ []) q z) h)
      | no z ↦ absurd (nothing q p (λ y. z y) h)
    ];
    size = omega (arith, length-append s (node 1 c ∷ []));
  }
    where
      nothing :
          (q p : Ptr)
          → ¬ (q < length s)
          → 0 < count p (pointers (cell_slots (at (s ++ node 1 c ∷ []) q)))
          → ⊥
      nothing q p z h = elim (ℕ_discrete (length s) q) [
        | yes e ↦ none_of (
            subst (λ x. 0 < count p (pointers (cell_slots x))) (at-append_self s (node 1 c))
              (subst (λ y. 0 < count p (pointers (cell_slots (at (s ++ node 1 c ∷ []) y)))) (sym e)
                h))
        | no ne ↦ omega (
          arith,
          subst (λ x. 0 < count p (pointers (cell_slots x)))
              (get_or-ge (s ++ node 1 c ∷ []) q freed
                (omega (arith, length-append s (node 1 c ∷ []))))
              h,
        )
      ]
        where
          none_of : 0 < count p (pointers (slots c)) → ⊥
          none_of y = omega (arith, ap (count p) empty)

  pub retain-Keeps :
      (g : Ptr) (s s' : Store) → retain g s ≡ done s' → ¬ R g → IsClosed s → Keeps s s'
  unfolding retain
  retain-Keeps g s s' e out closed =
      let ((ref, c), e₁, e₂) = >>=-eq-done (load s g) _ e in
      let at_g = load-at s g e₁ in
      subst (Keeps s) (same_store e₂) (
        set-Keeps s g (node (ref + 1) c) (ap is_live at_g) out closed
          (slots-out s g at_g out closed))

  pub val-Keeps :
      (g : Ptr) (s : Store) (p : Ptr) (s' : Store)
      → val_boolformula g s ≡ done (p, s')
      → ¬ R g
      → IsClosed s
      → Keeps s s' × (g ≡ p)
  unfolding val_boolformula
  val-Keeps g s p s' e out closed =
      let (s₁, e₁, e₂) = >>=-eq-done (retain g s) _ e in
      let (a, b) = same_pair e₂ in (subst (Keeps s) b (retain-Keeps g s s₁ e₁ out closed), a)

  abbrev pub CallKeeps : (Ptr → Store → Run Store) → Type 0
  CallKeeps call = (g : Ptr) (s s' : Store) → call g s ≡ done s' → ¬ R g → IsClosed s → Keeps s s'

  pub read_slot-out :
      (f : Ptr) (i : ℕ) (g : Ptr) (s : Store)
      → read_slot f i s ≡ done g
      → ¬ R f
      → IsClosed s
      → ¬ R g
  unfolding read_slot
  read_slot-out f i g s e out closed =
      let ((ref, c), e₁, e₂) = >>=-eq-done (load s f) _ e in
      slots-out s f (load-at s f e₁) out closed g (slot-count (slots c) i g e₂)

  for_slots-Keeps :
      (call : Ptr → Store → Run Store)
      → CallKeeps call
      → (f : Ptr) (i n : ℕ) (s s' : Store) → for_slots call f i n s ≡ done s'
      → ¬ R f
      → IsClosed s
      → Keeps s s'
  unfolding for_slots
  for_slots-Keeps call keeps f i zero s s' e out closed =
      subst (Keeps s) (same_store e) (Keeps-refl s closed)
  for_slots-Keeps call keeps f i (suc n) s s' e out closed =
      let (g, e₁, e₂) = >>=-eq-done (read_slot f i s) _ e in
      let (s₁, e₃, e₄) = >>=-eq-done (call g s) _ e₂ in
      let one = keeps g s s₁ e₃ (read_slot-out f i g s e₁ out closed) closed in
      Keeps-trans s s₁ s' one (for_slots-Keeps call keeps f (suc i) n s₁ s' e₄ out one.closed)

  release-Keeps : (f : Ptr) (s s' : Store) → release f s ≡ done s' → ¬ R f → IsClosed s → Keeps s s'
  unfolding release
  release-Keeps f s s' e out closed =
      let ((ref, c), e₁, e₂) = >>=-eq-done (load s f) _ e in
      subst (Keeps s) (same_store e₂)
        (set-Keeps s f freed (ap is_live (load-at s f e₁)) out closed (λ p h. absurd (omega arith)))

  -- `boolformula_free` of an object outside of `R` leaves the objects of `R` alone.
  pub free-Keeps : (fuel : ℕ) → CallKeeps (free fuel)
  unfolding free
  free-Keeps zero g s s' e out closed = cc
  free-Keeps (suc fuel) g s s' e out closed =
      let ((ref, c), e₁, e₂) = >>=-eq-done (load s g) _ e in
      let at_g = load-at s g e₁ in
      elim (Bool-cases (ltb 1 ref)) [
        | inl b ↦ subst (Keeps s) (same_store (rw b at e₂)) (
            set-Keeps s g (node (ref - 1) c) (ap is_live at_g) out closed
              (slots-out s g at_g out closed))
        | inr b ↦
            let (s₁, e₃, e₄) =
              >>=-eq-done (for_slots (free fuel) g 0 (length (slots c)) s) _ (rw b at e₂) in
            let one =
              for_slots-Keeps (free fuel) (free-Keeps fuel) g 0 (length (slots c)) s s₁ e₃ out
                closed in
            Keeps-trans s s₁ s' one (release-Keeps g s₁ s' e₄ out one.closed)
      ]
