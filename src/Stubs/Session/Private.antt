-- ===== src/Stubs/Session/Private.antt =====
-- Objects that OCaml code cannot reach stay what they are, whatever it does.
use dorder.Prelude.{
  ℕ, zero, suc, ◌+◌, ◌≤◌, ◌<◌, ◌≡◌, refl, sym, ap, subst, List, [], ◌∷◌, none, Run, done, ◌>>=◌,
  >>=-eq-done, assert, arith, length, get_or, set, replicate, ltb, inl, inr, Bool-cases,
}
use native.Mathlib.Decide.{ℕ_discrete, dec_lt}
use dorder.BoolFormula.{BoolFormula}
use dorder.BoolFormula.Store.{
  Ptr, Content, literal, disjunct, conjunct, node, Store, slots, load, malloc, append_slot,
  write_slot, add, set_subformula, read_slot,
}
use dorder.BoolFormula.Store.Count.{
  IsCounted, pointers, pointers-replicate, count, cell_slots, cell_ref, cell_count, in_refs,
  is_live, at, at-lt,
}
use dorder.BoolFormula.Store.Calls.{count_self, count_ne}
use dorder.BoolFormula.Store.Changes.{load-at}
use dorder.BoolFormula.Store.Copy.Made.{count-cons, lt→ne}
use dorder.BoolFormula.Store.Reads.{NewFormula}
use dorder.BoolFormula.Store.Depth.{depth-length}
use dorder.BoolFormula.Store.Copy.Read.{copy-NewFormula}
use dorder.BoolFormula.Store.Cnf.Result.{to_cnf-NewFormula}
use dorder.Stubs.Handles.{
  is_composite, val_boolformula, dealloc_boolformula, ocaml_create_literal,
  ocaml_create_disjunction, ocaml_create_conjunction, ocaml_add_boolformula, ocaml_set_boolformula,
  wrap_subformula, ocaml_copy, ocaml_to_cnf,
}
use dorder.Stubs.Session.{
  Session, IsHeld, Step, create_literal, create_disjunction, create_conjunction, add_boolformula,
  set_boolformula, get_boolformula, copy, to_cnf, finalise, Reach, here, next,
}
use dorder.Stubs.Session.Counts.{append_slot-count, write_slot-count}
use dorder.Stubs.Session.Reached.{change, Step-IsBalanced}
use dorder.Stubs.Session.Apart.{
  IsClosed, Keeps, Keeps-refl, Keeps-trans, set-Keeps, slots-out, malloc-Keeps, retain-Keeps,
  val-Keeps, read_slot-out, free-Keeps,
}

pub in_refs-at : (p : Ptr) (s : Store) (q : Ptr) → cell_count p (at s q) ≤ in_refs p s
in_refs-at p [] q = omega arith
in_refs-at p (c ∷ s) zero = omega arith
in_refs-at p (c ∷ s) (suc q) = omega (arith, in_refs-at p s q)

-- A store that goes on behind another has all its slots, and those behind.
in_refs-behind :
    (p : Ptr) (s s' : Store)
    → ((q : Ptr) → q < length s → at s' q ≡ at s q)
    → length s ≤ length s'
    → (q : Ptr) → length s ≤ q
    → in_refs p s + cell_count p (at s' q) ≤ in_refs p s'
in_refs-behind p [] s' h le q b = omega (arith, in_refs-at p s' q)
in_refs-behind p (c ∷ s) [] h le q b = absurd (omega arith)
in_refs-behind p (c ∷ s) (d ∷ s') h le zero b = absurd (omega arith)
in_refs-behind p (c ∷ s) (d ∷ s') h le (suc q) b = omega (
  arith,
  ap (cell_count p) (h 0 (omega arith)),
  in_refs-behind p s s' (λ r z. h (suc r) (omega arith)) (omega arith) q (omega arith),
)

module _ (R : Ptr → Type 0) where
  -- Neither a wrapper nor a slot of another object holds an object of `R`.
  pub record Private (s : Session) : Type 0 where
    pub room : (r : Ptr) → R r → r < length s.store
    pub closed : IsClosed R s.store
    pub apart : (p : Ptr) → IsHeld s p → ¬ R p

  -- A formula made of another has no slot for an object of `R`, since the counts of these do not grow.
  pub made-Keeps :
      (lost : Ptr → ℕ) (s s' : Store) (held : List Ptr) (g : BoolFormula)
      → IsCounted lost s held
      → NewFormula s s' g
      → ((r : Ptr) → R r → r < length s)
      → IsClosed R s
      → Keeps R s s'
  made-Keeps lost s s' held g acc n room closed = record {
    same = λ r h. n.old r (room r h);
    closed = λ q out p h. elim (dec_lt q (length s)) [
      | yes z ↦ closed q out p (subst (λ x. 0 < count p (pointers (cell_slots x))) (n.old q z) h)
      | no z ↦ λ inside. clash q p (omega arith) h (room p inside)
    ];
    size = longer;
  }
    where
      longer : length s ≤ length s'
      longer = omega (arith, at-lt s' (length s) (ap is_live n.single))

      clash :
          (q p : Ptr)
          → length s ≤ q
          → 0 < count p (pointers (cell_slots (at s' q)))
          → p < length s
          → ⊥
      clash q p b h z = omega (
        arith,
        in_refs-behind p s s' n.old longer q b,
        acc p,
        n.counted lost held acc p,
        ap cell_ref (n.old p z),
        count_ne p (length s) held (lt→ne p (length s) z),
      )

  module _ (s t : Session) (w : Private s) where
    -- One more wrapper.
    hold :
        (p : Ptr)
        → ¬ R p
        → t.held ≡ p ∷ s.held
        → Keeps R s.store t.store
        → Private t × Keeps R s.store t.store
    hold p out h k = (
      record {
        room = λ r z. omega (arith, w.room r z, k.size);
        closed = k.closed;
        apart = λ q z. elim (count-cons q p s.held (subst (λ l. 0 < count q l) h z)) [
          | inl e ↦ subst (λ x. ¬ R x) e out
          | inr y ↦ w.apart q y
        ];
      },
      k,
    )

    new_out : ¬ R (length s.store)
    new_out z = omega (arith, w.room (length s.store) z)

    -- A new object is wrapped.
    wrap_new :
        (s₁ : Store) (p : Ptr)
        → Keeps R s.store s₁
        → val_boolformula (length s.store) s₁ ≡ done (p, t.store)
        → t.held ≡ p ∷ s.held
        → Private t × Keeps R s.store t.store
    wrap_new s₁ p k e h =
        let (l, a) = val-Keeps R (length s.store) s₁ p t.store e new_out k.closed in
        hold p (subst (λ x. ¬ R x) a new_out) h (Keeps-trans R s.store s₁ t.store k l)

    create :
        (c : Content) (p : Ptr)
        → pointers (slots c) ≡ []
        → val_boolformula (length s.store) (malloc c s.store).1 ≡ done (p, t.store)
        → t.held ≡ p ∷ s.held
        → Private t × Keeps R s.store t.store
    create c p empty e h =
        wrap_new (malloc c s.store).1 p (malloc-Keeps R s.store c empty w.room w.closed) e h

    change-Keeps :
        (op : Content → Run Content) (gone : Content → List Ptr) (f g p : Ptr)
        → ((c c' : Content)
            → op c ≡ done c'
            → (q : Ptr)
            → count q (pointers (slots c')) + count q (gone c)
              ≡ count q (pointers (slots c)) + count q (g ∷ []))
        → IsHeld s f
        → IsHeld s g
        → (change op f g s.store >>= val_boolformula f) ≡ done (p, t.store)
        → t.held ≡ p ∷ s.held
        → Private t × Keeps R s.store t.store
    change-Keeps op gone f g p counts hf hg e h =
        let (s₁, e₁, e₂) = >>=-eq-done (change op f g s.store) (val_boolformula f) e in
        let ((ref, c), e₃, e₄) = >>=-eq-done (load s.store f) _ e₁ in
        let (c', e₅, e₆) = >>=-eq-done (op c) _ e₄ in
        let at_f = load-at s.store f e₃ in
        let out = w.apart f hf in
        let s₀ = set s.store f (node ref c') in
        let within : (q : Ptr) → 0 < count q (pointers (slots c')) → ¬ R q = (λ q z.
          elim (ℕ_discrete g q) [
            | yes y ↦ subst (λ x. ¬ R x) y (w.apart g hg)
            | no y ↦
                slots-out R s.store f at_f out w.closed q
                  (omega (arith, counts c c' e₅ q, count_ne q g [] (λ x. y (sym x))))
          ]) in
        let k₀ = set-Keeps R s.store f (node ref c') (ap is_live at_f) out w.closed within in
        let k₁ = retain-Keeps R g s₀ s₁ e₆ (w.apart g hg) k₀.closed in
        let (k₂, a) = val-Keeps R f s₁ p t.store e₂ out k₁.closed in
        hold p (subst (λ x. ¬ R x) a out) h
          (Keeps-trans R s.store s₁ t.store (Keeps-trans R s.store s₀ s₁ k₀ k₁) k₂)

    get-Keeps :
        (f : Ptr) (i : ℕ) (p : Ptr)
        → IsHeld s f
        → wrap_subformula f i s.store ≡ done (p, t.store)
        → t.held ≡ p ∷ s.held
        → Private t × Keeps R s.store t.store
    unfolding wrap_subformula
    get-Keeps f i p hf e h =
        let ((ref, c), e₁, e₂) = >>=-eq-done (load s.store f) _ e in
        let (_, e₃, e₄) = >>=-eq-done (assert (is_composite c)) _ e₂ in
        let (_, e₅, e₆) = >>=-eq-done (assert (ltb i (length (slots c)))) _ e₄ in
        let (g, e₇, e₈) = >>=-eq-done (read_slot f i s.store) _ e₆ in
        let out = read_slot-out R f i g s.store e₇ (w.apart f hf) w.closed in
        let (k, a) = val-Keeps R g s.store p t.store e₈ out w.closed in
        hold p (subst (λ x. ¬ R x) a out) h k

    finalise-Keeps :
        (p : Ptr)
        → ((q : Ptr) → count q s.held ≡ count q (p ∷ t.held))
        → dealloc_boolformula p s.store ≡ done t.store
        → Private t × Keeps R s.store t.store
    unfolding dealloc_boolformula
    finalise-Keeps p e r =
        let out = w.apart p (omega (arith, e p, count_self p t.held)) in
        let k = free-Keeps R (suc (length s.store)) p s.store t.store r out w.closed in
        (
          record {
            room = λ r z. omega (arith, w.room r z, k.size);
            closed = k.closed;
            apart = λ q z. w.apart q (omega (arith, e q));
          },
          k,
        )

  Step-Keeps :
      (lost : Ptr → ℕ) (s t : Session)
      → IsCounted lost s.store s.held
      → Private s
      → Step s t
      → Private t × Keeps R s.store t.store
  unfolding ocaml_create_literal ocaml_create_disjunction ocaml_create_conjunction
      ocaml_add_boolformula ocaml_set_boolformula add set_subformula ocaml_copy ocaml_to_cnf
  Step-Keeps lost s t acc w (create_literal l p e h) = create s t w (literal l) p refl e h
  Step-Keeps lost s t acc w (create_disjunction n p e h) = elim (Bool-cases (ltb 0 n)) [
    | inl b ↦ create s t w (disjunct (replicate n none)) p (pointers-replicate n) (rw b at e) h
    | inr b ↦ create s t w (disjunct []) p refl (rw b at e) h
  ]
  Step-Keeps lost s t acc w (create_conjunction n p e h) = elim (Bool-cases (ltb 0 n)) [
    | inl b ↦ create s t w (conjunct (replicate n none)) p (pointers-replicate n) (rw b at e) h
    | inr b ↦ create s t w (conjunct []) p refl (rw b at e) h
  ]
  Step-Keeps lost s t acc w (add_boolformula f g p hf hg e h) =
      change-Keeps s t w (λ c. append_slot c g) (λ c. []) f g p (λ c c'. append_slot-count c c' g)
        hf hg e h
  Step-Keeps lost s t acc w (set_boolformula f i g p hf hg e h) =
      change-Keeps s t w (λ c. write_slot c i g) (λ c. pointers (get_or (slots c) i none ∷ [])) f g
        p (λ c c'. write_slot-count c c' i g) hf hg e h
  Step-Keeps lost s t acc w (get_boolformula f i p hf e h) = get-Keeps s t w f i p hf e h
  Step-Keeps lost s t acc w (copy f g p hf reads e h) =
      let (s', r, n) =
        copy-NewFormula s.store f g (length s.store) reads (depth-length s.store f g reads) in
      wrap_new s t w s' p (made-Keeps lost s.store s' s.held g acc n w.room w.closed) (rw r at e) h
  Step-Keeps lost s t acc w (to_cnf f g num_vars p hf reads e h) =
      let (s', g', r, _, n) =
        to_cnf-NewFormula s.store f g (length s.store) num_vars reads
          (depth-length s.store f g reads) in
      wrap_new s t w s' p (made-Keeps lost s.store s' s.held g' acc n w.room w.closed) (rw r at e) h
  Step-Keeps lost s t acc w (finalise p full e r) = finalise-Keeps s t w p e r

  -- In a session with right counts, objects that no wrapper and no slot of another object holds are, after
  -- any steps, what they were.
  pub Reach-Keeps :
      (lost : Ptr → ℕ) (s t : Session)
      → IsCounted lost s.store s.held
      → Private s
      → Reach s t
      → (lost' : Ptr → ℕ) × ((q : Ptr) → lost q ≤ lost' q)
        × IsCounted lost' t.store t.held
        × Private t
        × Keeps R s.store t.store
  Reach-Keeps lost s t acc w here =
      (lost, (λ q. omega arith), acc, w, Keeps-refl R s.store w.closed)
  Reach-Keeps lost s t acc w (next {t = u} r st) =
      let (lost₁, le₁, acc₁, w₁, k₁) = Reach-Keeps lost s u acc w r in
      let (lost₂, le₂, acc₂) = Step-IsBalanced lost₁ u t acc₁ st in
      let (w₂, k₂) = Step-Keeps lost₁ u t acc₁ w₁ st in
      (
        lost₂,
        (λ q. omega (arith, le₁ q, le₂ q)),
        acc₂,
        w₂,
        Keeps-trans R s.store u.store t.store k₁ k₂,
      )
