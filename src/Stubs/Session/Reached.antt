-- ===== src/Stubs/Session/Reached.antt =====
-- The sessions that OCaml code can reach through the bindings of cdnfp_stubs.c.
use dorder.Prelude.{
  ℕ, suc, ◌+◌, ◌≡◌, refl, sym, ap, ◌∙◌, subst, true, List, [], ◌∷◌, none, Run, done, ◌>>=◌,
  >>=-eq-done, assert, arith, ltb, length, get_or, set, replicate, inl, inr, Bool-cases,
}
use dorder.BoolFormula.{Lit, BoolFormula}
use dorder.BoolFormula.Store.Reads.{NewFormula}
use dorder.BoolFormula.Store.Depth.{depth-length}
use dorder.BoolFormula.Store.Copy.Read.{copy-NewFormula}
use dorder.BoolFormula.Store.Cnf.Result.{to_cnf-NewFormula}
use dorder.BoolFormula.Store.{
  Ptr, Content, literal, disjunct, conjunct, node, Store, slots, load, malloc, retain, append_slot,
  write_slot, add, set_subformula, read_slot,
}
use dorder.BoolFormula.Store.Count.{IsCounted, pointers-replicate, pointers, count, is_live, at}
use dorder.BoolFormula.Store.Free.{IsAccounted}
use dorder.BoolFormula.Store.Safe.{free-IsAccounted}
use dorder.BoolFormula.Store.Calls.{count_self}
use dorder.BoolFormula.Store.Changes.{live_of_ref, load-at, store-IsCounted}
use dorder.Stubs.Handles.{
  is_composite, val_boolformula, dealloc_boolformula, ocaml_create_literal,
  ocaml_create_disjunction, ocaml_create_conjunction, ocaml_add_boolformula, ocaml_set_boolformula,
  wrap_subformula, ocaml_copy, ocaml_to_cnf,
}
use dorder.Stubs.Session.{
  Session, IsHeld, AllFilled, Step, create_literal, create_disjunction, create_conjunction,
  add_boolformula, set_boolformula, get_boolformula, copy, to_cnf, finalise, Reach, here, next,
  IsBalanced,
}
use dorder.Stubs.Session.Apart.{same_store}
use dorder.Stubs.Session.Counts.{
  append_slot-count, write_slot-count, held-live, val-IsCounted, wrap-IsBalanced, create-IsBalanced,
  slot-count, in_refs_pos,
}

-- The common form of `boolformula_add` and `boolformula_set`.
abbrev pub change : (Content → Run Content) → Ptr → Ptr → Store → Run Store
change op f g s = do (ref, c) ← load s f; c' ← op c; retain g (set s f (node ref c'))

module _ (lost : Ptr → ℕ) (s t : Session) (acc : IsCounted lost s.store s.held) where
  create :
      (c : Content) (p : Ptr)
      → pointers (slots c) ≡ []
      → val_boolformula (length s.store) (malloc c s.store).1 ≡ done (p, t.store)
      → t.held ≡ p ∷ s.held
      → IsBalanced lost t
  create c p empty e h = (
    (λ q. lost q + count q (p ∷ [])),
    (λ q. omega arith),
    create-IsBalanced lost s c p t acc empty e h,
  )

  -- A formula that was made from another.
  made-IsBalanced :
      (s' : Store) (g : BoolFormula) (p : Ptr)
      → NewFormula s.store s' g
      → val_boolformula (length s.store) s' ≡ done (p, t.store)
      → t.held ≡ p ∷ s.held
      → IsBalanced lost t
  made-IsBalanced s' g p n e h = (
    (λ q. lost q + count q (p ∷ [])),
    (λ q. omega arith),
    wrap-IsBalanced lost s' s.held (length s.store) p t (n.counted lost s.held acc) e h,
  )

  -- A write to a slot of `f`, and one more wrapper for `f`.
  change-IsBalanced :
      (op : Content → Run Content) (gone : Content → List Ptr) (f g p : Ptr)
      → ((c c' : Content)
          → op c ≡ done c'
          → (q : Ptr)
          → count q (pointers (slots c')) + count q (gone c)
            ≡ count q (pointers (slots c)) + count q (g ∷ []))
      → IsHeld s f
      → IsHeld s g
      → (change op f g s.store >>= val_boolformula f) ≡ done (p, t.store)
      → t.held ≡ p ∷ s.held
      → IsBalanced lost t
  change-IsBalanced op gone f g p counts hf hg e h =
      let (s₁, e₁, e₂) = >>=-eq-done (change op f g s.store) (val_boolformula f) e in
      let ((ref, c), e₃, e₄) = >>=-eq-done (load s.store f) _ e₁ in
      let (c', e₅, e₆) = >>=-eq-done (op c) _ e₄ in
      let (s₂, r, acc₂) =
        store-IsCounted lost s.store s.held acc f g ref c c' (gone c) (load-at s.store f e₃)
          (held-live lost s g acc hg) (counts c c' e₅) in
      let lost' : Ptr → ℕ = (λ q. lost q + count q (gone c)) in
      let acc₁ : IsCounted lost' s₁ s.held =
        subst (λ u. IsCounted lost' u s.held) (same_store (sym r ∙ e₆)) acc₂ in
      let live = live_of_ref s₁ f (omega (arith, acc₁ f)) in
      let (acc', _) = val-IsCounted lost' s₁ s.held f p t.store acc₁ live e₂ in
      (lost', (λ q. omega arith), subst (IsCounted lost' t.store) (sym h) acc')

  -- A slot of a live object holds a live object.
  slot-live :
      (f : Ptr) (i : ℕ) (g : Ptr) → read_slot f i s.store ≡ done g → is_live (at s.store g) ≡ true
  unfolding read_slot
  slot-live f i g e =
      let ((ref, c), e₁, e₂) = >>=-eq-done (load s.store f) _ e in
      live_of_ref s.store g (
        omega (
          arith,
          acc g,
          in_refs_pos s.store f g (load-at s.store f e₁) (slot-count (slots c) i g e₂),
        ))

  get-IsBalanced :
      (f : Ptr) (i : ℕ) (p : Ptr)
      → wrap_subformula f i s.store ≡ done (p, t.store)
      → t.held ≡ p ∷ s.held
      → IsBalanced lost t
  unfolding wrap_subformula
  get-IsBalanced f i p e h =
      let ((ref, c), e₁, e₂) = >>=-eq-done (load s.store f) _ e in
      let (_, e₃, e₄) = >>=-eq-done (assert (is_composite c)) _ e₂ in
      let (_, e₅, e₆) = >>=-eq-done (assert (ltb i (length (slots c)))) _ e₄ in
      let (g, e₇, e₈) = >>=-eq-done (read_slot f i s.store) _ e₆ in
      let (acc', _) = val-IsCounted lost s.store s.held g p t.store acc (slot-live f i g e₇) e₈ in
      (lost, (λ q. omega arith), subst (IsCounted lost t.store) (sym h) acc')

  finalise-IsBalanced :
      (p : Ptr)
      → AllFilled s.store
      → ((q : Ptr) → count q s.held ≡ count q (p ∷ t.held))
      → (s' : Store) × (dealloc_boolformula p s.store ≡ done s') × IsCounted lost s' t.held
  unfolding dealloc_boolformula
  finalise-IsBalanced p full e =
      let all : IsAccounted lost s.store (p ∷ t.held) = record {
        counted = λ q. omega (arith, acc q, e q);
        filled = full;
      } in
      let (s', r, acc') =
        free-IsAccounted lost s.store p t.held (suc (length s.store)) all (omega arith) in
      (s', r, acc'.counted)

-- A step keeps the counts right, and gives no lost reference back.
pub Step-IsBalanced :
    (lost : Ptr → ℕ) (s t : Session) → IsCounted lost s.store s.held → Step s t → IsBalanced lost t
unfolding ocaml_create_literal ocaml_create_disjunction ocaml_create_conjunction
    ocaml_add_boolformula ocaml_set_boolformula add set_subformula ocaml_copy ocaml_to_cnf
Step-IsBalanced lost s t acc (create_literal l p e h) = create lost s t acc (literal l) p refl e h
Step-IsBalanced lost s t acc (create_disjunction n p e h) = elim (Bool-cases (ltb 0 n)) [
  | inl b ↦ create lost s t acc (disjunct (replicate n none)) p (pointers-replicate n) (rw b at e) h
  | inr b ↦ create lost s t acc (disjunct []) p refl (rw b at e) h
]
Step-IsBalanced lost s t acc (create_conjunction n p e h) = elim (Bool-cases (ltb 0 n)) [
  | inl b ↦ create lost s t acc (conjunct (replicate n none)) p (pointers-replicate n) (rw b at e) h
  | inr b ↦ create lost s t acc (conjunct []) p refl (rw b at e) h
]
Step-IsBalanced lost s t acc (add_boolformula f g p hf hg e h) =
    change-IsBalanced lost s t acc (λ c. append_slot c g) (λ c. []) f g p
      (λ c c'. append_slot-count c c' g) hf hg e h
Step-IsBalanced lost s t acc (set_boolformula f i g p hf hg e h) =
    change-IsBalanced lost s t acc (λ c. write_slot c i g)
      (λ c. pointers (get_or (slots c) i none ∷ [])) f g p (λ c c'. write_slot-count c c' i g) hf hg
      e h
Step-IsBalanced lost s t acc (get_boolformula f i p hf e h) = get-IsBalanced lost s t acc f i p e h
Step-IsBalanced lost s t acc (copy f g p hf reads e h) =
    let fits = depth-length s.store f g reads in
    let (s', r, n) = copy-NewFormula s.store f g (length s.store) reads fits in
    made-IsBalanced lost s t acc s' g p n (rw r at e) h
Step-IsBalanced lost s t acc (to_cnf f g num_vars p hf reads e h) =
    let fits = depth-length s.store f g reads in
    let (s', g', r, _, n) = to_cnf-NewFormula s.store f g (length s.store) num_vars reads fits in
    made-IsBalanced lost s t acc s' g' p n (rw r at e) h
Step-IsBalanced lost s t acc (finalise p full e r) =
    let (s', r', acc') = finalise-IsBalanced lost s t acc p full e in
    (lost, (λ q. omega arith), subst (λ u. IsCounted lost u t.held) (same_store (sym r' ∙ r)) acc')

-- In every session that is reached from one with right reference counts these are right again: the
-- count of an object is the number of slots that hold it, of its wrappers, and of lost references,
-- which do not become fewer. So no slot and no wrapper points to an object that was freed.
pub Reach-IsBalanced :
    (lost : Ptr → ℕ) (s t : Session) → IsCounted lost s.store s.held → Reach s t → IsBalanced lost t
Reach-IsBalanced lost s t acc here = (lost, (λ q. omega arith), acc)
Reach-IsBalanced lost s t acc (next {t = u} r st) =
    let (lost₁, le₁, acc₁) = Reach-IsBalanced lost s u acc r in
    let (lost₂, le₂, acc₂) = Step-IsBalanced lost₁ u t acc₁ st in
    (lost₂, (λ q. omega (arith, le₁ q, le₂ q)), acc₂)

-- In every session that is reached from one with right reference counts and in which every slot is
-- written, the collector can finalise the wrapper that is held: `dealloc_boolformula` ends without
-- reading or freeing an object that was freed.
pub Reach-finalise :
    (lost : Ptr → ℕ) (s t : Session) (p : Ptr) (rest : List Ptr)
    → IsCounted lost s.store s.held
    → Reach s t
    → AllFilled t.store
    → t.held ≡ p ∷ rest
    → (store : Store) × (dealloc_boolformula p t.store ≡ done store)
      × Step t (record { store = store; held = rest })
Reach-finalise lost s t p rest acc r full e =
    let (lost', _, acc') = Reach-IsBalanced lost s t acc r in
    let (store, d, _) =
      finalise-IsBalanced lost' t (record { store = t.store; held = rest }) acc' p full
        (λ q. ap (count q) e) in
    (store, d, finalise p full (λ q. ap (count q) e) d)

-- An object made by `ocaml_create_literal` in a session with right counts is never freed: it is there
-- in every session reached afterwards, also when all its wrappers are finalised.
pub Reach-ocaml_create_literal :
    (lost : Ptr → ℕ) (s t u : Session) (l : Lit) (p : Ptr)
    → IsCounted lost s.store s.held
    → ocaml_create_literal l s.store ≡ done (p, t.store)
    → t.held ≡ p ∷ s.held
    → Reach t u
    → is_live (at u.store p) ≡ true
unfolding ocaml_create_literal
Reach-ocaml_create_literal lost s t u l p acc e h r =
    let acc₁ = create-IsBalanced lost s (literal l) p t acc refl e h in
    let (lost', le, acc') = Reach-IsBalanced (λ q. lost q + count q (p ∷ [])) t u acc₁ r in
    live_of_ref u.store p (omega (arith, acc' p, le p, count_self p []))
