-- ===== src/Stubs/Query/Counted.antt =====
-- The objects and the reference counts of an equivalence query.
use dorder.Prelude.{
  ℕ, ◌≤◌, ◌<◌, ◌≡◌, ◌≢◌, refl, sym, ap, subst, ◌∙◌, true, List, ◌∷◌, done, arith, length, set,
  length-set, get_or-ge, inl, inr,
}
use native.Mathlib.Decide.{ℕ_discrete, dec_lt}
use dorder.BoolFormula.{BoolFormula}
use dorder.BoolFormula.Store.{Ptr, Content, freed, node, Store, retain}
use dorder.BoolFormula.Store.Count.{
  IsCounted, count, pointers, cell_slots, cell_ref, in_refs, at, is_live, at-lt, eq_of_cells,
}
use dorder.BoolFormula.Store.Free.{IsFilled, load-done, at-set_self, at-set_ne}
use dorder.BoolFormula.Store.Safe.{free_more}
use dorder.BoolFormula.Store.Reads.{
  NewFormula, above, above-from, Contains, view, view-lt, Reads, Reads-Contains, content_of,
}
use dorder.BoolFormula.Store.Depth.{depth-length}
use dorder.BoolFormula.Store.Copy.Made.{IsFull-trans, lt→ne, count-cons}
use dorder.BoolFormula.Store.Copy.Read.{copy-IsFull, copy-NewFormula}
use dorder.CdnfFormula as Tree
use dorder.CdnfFormula.{Conjunction}
use dorder.CdnfFormula.Store.Translated.{to_boolformula-Builds}
use dorder.CdnfFormula.Store.Fills.{Builds, Builds-NewFormula}
use dorder.Stubs.Handles.{val_boolformula, hand_over}
use dorder.Stubs.Session.{AllFilled}
use dorder.Stubs.Session.Apart.{IsClosed}
use dorder.Stubs.Session.Private.{Private, made-Keeps, in_refs-at}
use dorder.Stubs.Query.{offer}

module _ (s : Store) (f : Ptr) (c : Content) (e : at s f ≡ node 1 c) where
  live : is_live (at s f) ≡ true
  live = ap is_live e

  held_twice : Store
  held_twice = set s f (node 2 c)

  self : at held_twice f ≡ node 2 c
  unfolding held_twice
  self = at-set_self s f (node 2 c) live

  same_store : set held_twice f (node 1 c) ≡ s
  unfolding held_twice
  same_store =
      eq_of_cells (set held_twice f (node 1 c)) s
        (length-set held_twice f (node 1 c) ∙ length-set s f (node 2 c))
        (λ q. elim (ℕ_discrete f q) [
          | yes y ↦
              subst (λ r. at (set held_twice f (node 1 c)) r ≡ at s r) y
                (at-set_self held_twice f (node 1 c) (ap is_live self) ∙ sym e)
          | no y ↦ at-set_ne held_twice f q (node 1 c) y ∙ at-set_ne s f q (node 2 c) y
        ])

  -- The wrapper takes the place of the holder: the store is what it was.
  hand_over-done : hand_over f s ≡ done (f, s)
  unfolding hand_over val_boolformula retain held_twice
  hand_over-done = rw (load-done s f e) (
      rw (free_more (length held_twice) f held_twice 2 c self (omega arith))
        (ap (λ u. done (f, u)) same_store))

-- The objects of the formula that the learner holds.
abbrev pub Own : Ptr → Ptr → Ptr → Type 0
Own b f q = (b ≤ q) × (q < f)

-- What no object of a store with right counts holds: a number behind the last object.
none_behind :
    (lost : Ptr → ℕ) (s : Store) (held : List Ptr) (p : Ptr)
    → IsCounted lost s held
    → length s ≤ p
    → (in_refs p s ≡ 0) × (count p held ≡ 0)
none_behind lost s held p acc h =
    let gone = acc p in
    let empty = ap cell_ref (get_or-ge s p freed h) in (omega arith, omega arith)

-- The formula is made, and copied.
module _ (s s₁ s₂ : Store) (g : BoolFormula) (one : Builds s s₁ g) (two : NewFormula s₁ s₂ g) where
  kept_in :
      (t : Store)
      → ((q : Ptr) → Own (length s) (length s₁) q → at t q ≡ at s₂ q)
      → Reads (view t) (length s) g
  kept_in t same = Reads-Contains _ _ (length s) g carry one.there
    where
      carry : Contains (above (length s) (view s₁)) (view t)
      carry q c e =
          let (low, there) = above-from (length s) (view s₁) q c e in
          let high = view-lt s₁ q c there in
          ap content_of (same q (low, high) ∙ two.old q high) ∙ there

  closed₁ :
      (lost : Ptr → ℕ) (held : List Ptr)
      → IsCounted lost s held
      → IsClosed (Own (length s) (length s₁)) s₁
  closed₁ lost held acc q out p h inside = elim (dec_lt q (length s)) [
    | yes z ↦
        let old = subst (λ x. 0 < count p (pointers (cell_slots x))) (one.old q z) h in
        omega (arith, in_refs-at p s q, (none_behind lost s held p acc inside.0).0)
    | no z ↦ elim (dec_lt q (length s₁)) [
      | yes y ↦ out (omega arith, y)
      | no y ↦ omega (
        arith,
        subst (λ x. 0 < count p (pointers (cell_slots x))) (get_or-ge s₁ q freed (omega arith)) h,
      )
    ]
  ]

  private₂ :
      (lost : Ptr → ℕ) (held : List Ptr)
      → IsCounted lost s held
      → Private (Own (length s) (length s₁)) (record { store = s₂; held = length s₁ ∷ held })
  private₂ lost held acc =
      let k =
        made-Keeps (Own (length s) (length s₁)) lost s₁ s₂ (length s ∷ held) g
          (one.counted lost held acc) two (λ r h. h.1) (closed₁ lost held acc) in
      record {
        room = λ r h. omega (arith, h.1, k.size);
        closed = k.closed;
        apart = λ p h inside. elim (count-cons p (length s₁) held h) [
          | inl e ↦ omega (arith, e, inside.1)
          | inr y ↦ omega (arith, (none_behind lost s held p acc inside.0).1)
        ];
      }

-- The conjecture stands in the store twice: for the learner, and for the closure.
pub record Offers (s s' : Store) (b f : Ptr) (g : BoolFormula) : Type 0 where
  pub conjectured : Reads (view s') b g
  pub wrapped : Reads (view s') f g
  pub apart : b ≢ f
  pub old : (q : Ptr) → q < length s → at s' q ≡ at s q
  pub counted :
      (lost : Ptr → ℕ) (held : List Ptr) → IsCounted lost s held → IsCounted lost s' (f ∷ b ∷ held)
  pub kept : (t : Store) → ((q : Ptr) → Own b f q → at t q ≡ at s' q) → Reads (view t) b g
  pub filled : AllFilled s → AllFilled s'
  pub private :
      (lost : Ptr → ℕ) (held : List Ptr)
      → IsCounted lost s held
      → Private (Own b f) (record { store = s'; held = f ∷ held })

-- A query makes two objects that stand for the formula of the conjecture: one that the learner holds,
-- and a copy that the wrapper for the closure holds. All objects that were there are what they were, and
-- right reference counts are right with these two holders. As long as the objects of the first one do not
-- change it stands for the formula, and with right counts no wrapper and no other object holds one of these. Written slots stay written.
pub offer-Offers :
    (conjecture : Conjunction) (s : Store)
    → (s' : Store) × (f : Ptr) × (offer conjecture s ≡ done (length s, f, s'))
      × Offers s s' (length s) f (Tree.to_boolformula conjecture)
unfolding offer
offer-Offers conjecture s =
    let g = Tree.to_boolformula conjecture in
    let (s₁, r₁, one) = to_boolformula-Builds conjecture s in
    let reads = (Builds-NewFormula s s₁ g one).there in
    let (s₂, r₂, two) =
      copy-NewFormula s₁ (length s) g (length s₁) reads (depth-length s₁ (length s) g reads) in
    let inside = at-lt s₁ (length s) (ap is_live one.single) in
    (
      s₂,
      length s₁,
      rw (r₁, r₂) (rw (hand_over-done s₂ (length s₁) two.top two.single) refl),
      record {
        conjectured = kept_in s s₁ s₂ g one two s₂ (λ q h. refl);
        wrapped = two.there;
        apart = lt→ne (length s) (length s₁) inside;
        old = λ q h. two.old q (omega arith) ∙ one.old q h;
        counted = λ lost held acc. two.counted lost (length s ∷ held) (one.counted lost held acc);
        kept = kept_in s s₁ s₂ g one two;
        filled = λ full q. elim (dec_lt q (length s)) [
          | yes z ↦
              subst (λ x. IsFilled (cell_slots x)) (sym (two.old q (omega arith) ∙ one.old q z))
                (full q)
          | no z ↦
              IsFull-trans s s₁ s₂ one.full
                (copy-IsFull s₁ (length s) g (length s₁) s₂ reads
                  (depth-length s₁ (length s) g reads) r₂)
                (λ x b h. two.old x h) q (omega arith)
        ];
        private = private₂ s s₁ s₂ g one two;
      },
    )
