-- ===== src/BoolFormula/Store/Copy/Copied.antt =====
-- The formula that `boolformula_copy` makes on a store.
use dorder.Prelude.{
  ℕ, zero, suc, ◌≤◌, ◌<◌, ◌≡◌, ◌≢◌, refl, sym, ap, subst, ◌∙◌, true, [], ◌∷◌, ◌++◌, none, inl, inr,
  done, arith, length, replicate, length-append,
}
use dorder.BoolFormula.{Lit, BoolFormula}
use dorder.BoolFormula.Store.{Ptr, Content, literal, disjunct, conjunct, node, Store, slots}
use dorder.BoolFormula.Store.Count.{
  cell_slots, pointers, pointers-replicate, count, at, is_live, at-lt,
}
use dorder.BoolFormula.Store.Free.{load-done, IsFilled}
use dorder.BoolFormula.Store.Placed.{
  Placed, leaf, disjunction, conjunction, Parts, end, part, root, roots, addresses, all_addresses,
  height, formula_of, formulas_of, IsIn, AllIn,
}
use dorder.BoolFormula.Store.Frame.{frame_all}
use dorder.BoolFormula.Store.Copy.{copy, compare_types, same_type}
use dorder.BoolFormula.Store.Copy.Slots.{Connective, content, slots-content}
use dorder.BoolFormula.Store.Changes.{malloc-IsCounted, at-append_lt, at-append_self}
use dorder.BoolFormula.Store.Copy.Made.{
  lt→ne, all_below, count-cons, CopyOf, SlotsCopied, Copies, AllCopy, IsFull-cons, IsFull-literal,
  full_of_roots,
}
use dorder.BoolFormula.Store.Copy.Rounds.{Ready, copy_slots-copied}

-- A tree with this connective at its root.
abbrev tree_of : Connective → Ptr → ℕ → Parts → Placed
tree_of Connective.disjunction p ref ts = disjunction p ref ts
tree_of Connective.conjunction p ref ts = conjunction p ref ts

root-tree_of : (k : Connective) (p : Ptr) (ref : ℕ) (ts : Parts) → root (tree_of k p ref ts) ≡ p
root-tree_of Connective.disjunction p ref ts = refl
root-tree_of Connective.conjunction p ref ts = refl

tree_of-IsIn :
    (k : Connective) (p : Ptr) (ref : ℕ) (ts : Parts) (s : Store)
    → at s p ≡ node ref (content k (roots ts))
    → AllIn s ts
    → IsIn s (tree_of k p ref ts)
unfolding IsIn
tree_of-IsIn Connective.disjunction p ref ts s e h = (e, h)
tree_of-IsIn Connective.conjunction p ref ts s e h = (e, h)

formula_of-tree_of :
    (k : Connective) (p q : Ptr) (ref ref' : ℕ) (ts us : Parts)
    → formulas_of ts ≡ formulas_of us
    → formula_of (tree_of k p ref ts) ≡ formula_of (tree_of k q ref' us)
unfolding formula_of
formula_of-tree_of Connective.disjunction p q ref ref' ts us e = ap BoolFormula.disjunct e
formula_of-tree_of Connective.conjunction p q ref ref' ts us e = ap BoolFormula.conjunct e

addresses-tree_of :
    (k : Connective) (p : Ptr) (ref : ℕ) (ts : Parts)
    → addresses (tree_of k p ref ts) ≡ p ∷ all_addresses ts
unfolding addresses
addresses-tree_of Connective.disjunction p ref ts = refl
addresses-tree_of Connective.conjunction p ref ts = refl

module _ (k : Connective) (p : Ptr) (ref : ℕ) (ts : Parts) (s : Store) where
  -- The store with the new object, whose slots are not written.
  allocated : Store
  allocated = s ++ node 1 (content k (replicate (length (roots ts)) none)) ∷ []

  allocated_old : (q : Ptr) → q < length s → at allocated q ≡ at s q
  unfolding allocated
  allocated_old q h = at-append_lt s _ q h

  length-allocated : length allocated ≡ suc (length s)
  unfolding allocated
  length-allocated =
      omega (arith, length-append s (node 1 (content k (replicate (length (roots ts)) none)) ∷ []))

  allocated-Ready :
      (fuel : ℕ) (ne : length s ≢ p)
      → at s p ≡ node ref (content k (roots ts))
      → slots (content k (roots ts)) ≡ roots ts
      → AllIn s ts
      → Ready fuel p (length s) ref (content k (roots ts)) k ne allocated [] [] ts
  unfolding allocated
  allocated-Ready fuel ne here e h = record {
    source = allocated_old p (at-lt s p (ap is_live here)) ∙ here;
    split = e;
    sizes = refl;
    target = at-append_self s _;
    apart = none_there (count (length s) (all_addresses ts)) refl;
    room = omega (arith, length-allocated);
    present = frame_all s allocated ts (λ q z. allocated_old q (all_below s ts q h z)) h;
  }
    where
      none_there : (n : ℕ) → count (length s) (all_addresses ts) ≡ n → n ≡ 0
      none_there zero c = refl
      none_there (suc n) c = absurd (omega (arith, all_below s ts (length s) h (omega (arith, c))))

  parts-CopyOf :
      (s' : Store) → SlotsCopied allocated s' (length s) k [] ts → CopyOf s s' (tree_of k p ref ts)
  unfolding allocated
  parts-CopyOf s' made = record {
    tree = tree_of k (length s) 1 made.parts;
    at_root = root-tree_of k (length s) 1 made.parts;
    present = tree_of-IsIn k (length s) 1 made.parts s' made.filled made.present;
    formula = formula_of-tree_of k (length s) p 1 ref made.parts ts made.formulas;
    top = content k (roots made.parts);
    single = made.filled;
    fresh = λ q z.
        elim (count-cons q (length s) (all_addresses made.parts)
          (subst (λ l. 0 < count q l) (addresses-tree_of k (length s) 1 made.parts) z)) [
            | inl e ↦ (omega (arith, e), omega (arith, e, made.grows, length-allocated))
            | inr y ↦ let (low, high) = made.fresh q y in (omega (arith, length-allocated), high)
          ];
    old = λ q z.
        made.old q (omega (arith, length-allocated)) (λ e. lt→ne q (length s) z (sym e))
        ∙ allocated_old q z;
    grows = omega (arith, made.grows, length-allocated);
    counted = λ lost held acc. made.counted lost (length s ∷ held) (
        malloc-IsCounted lost s held acc (content k (replicate (length (roots ts)) none))
          (ap pointers (slots-content k _) ∙ pointers-replicate (length (roots ts))));
    full =
        IsFull-cons s allocated s' (length s) refl length-allocated
          (subst (λ x. IsFilled (cell_slots x)) (sym made.filled)
            (subst IsFilled (sym (slots-content k (roots made.parts))) (full_of_roots made.parts)))
          made.full;
  }

leaf-CopyOf :
    (s : Store) (p : Ptr) (ref : ℕ) (l : Lit)
    → CopyOf s (s ++ node 1 (literal l) ∷ []) (leaf p ref l)
unfolding IsIn addresses formula_of
leaf-CopyOf s p ref l = record {
  tree = leaf (length s) 1 l;
  at_root = refl;
  present = at-append_self s (node 1 (literal l));
  formula = refl;
  top = literal l;
  single = at-append_self s (node 1 (literal l));
  fresh = λ q z. elim (count-cons q (length s) [] z) [
    | inl e ↦ (omega (arith, e), omega (arith, e, length-append s (node 1 (literal l) ∷ [])))
    | inr y ↦ absurd (omega arith)
  ];
  old = λ q z. at-append_lt s (node 1 (literal l) ∷ []) q z;
  grows = omega (arith, length-append s (node 1 (literal l) ∷ []));
  counted = λ lost held acc. malloc-IsCounted lost s held acc (literal l) refl;
  full = IsFull-literal s l;
}

not_below : (s : Store) (p : Ptr) {ref : ℕ} {c : Content} → at s p ≡ node ref c → length s ≢ p
not_below s p here e = lt→ne p (length s) (at-lt s p (ap is_live here)) (sym e)

compare_types-done :
    (s : Store) (f ret : Ptr) {ref ref' : ℕ} {c c' : Content}
    → at s f ≡ node ref c
    → at s ret ≡ node ref' c'
    → same_type c c' ≡ true
    → compare_types f ret s ≡ done (ret, s)
unfolding compare_types
compare_types-done s f ret e e' same = rw (load-done s f e, load-done s ret e', same) refl

mutual
  unfolding IsIn height copy allocated

  copies : (fuel : ℕ) (t : Placed) → Copies fuel t
  copies zero (leaf p ref l) s h b = absurd (omega arith)
  copies zero (disjunction p ref ts) s h b = absurd (omega arith)
  copies zero (conjunction p ref ts) s h b = absurd (omega arith)
  copies (suc fuel) (leaf p ref l) s h b = (
    s ++ node 1 (literal l) ∷ [],
    rw (load-done s p h) (
        compare_types-done _ p (length s) (at-append_lt s _ p (at-lt s p (ap is_live h)) ∙ h)
          (at-append_self s (node 1 (literal l))) refl),
    leaf-CopyOf s p ref l,
  )
  copies (suc fuel) (disjunction p ref ts) s h b =
      let k = Connective.disjunction in
      let ne = not_below s p h.0 in
      let (s', r, made) =
        copy_slots-copied fuel p (length s) ref (disjunct (roots ts)) k ne ts [] []
          (allocated k p ref ts s) (all_copies fuel ts)
          (allocated-Ready k p ref ts s fuel ne h.0 refl h.1) (omega arith) in
      (
        s',
        rw (load-done s p h.0, r)
            (compare_types-done s' p (length s)
              ((parts-CopyOf k p ref ts s s' made).old p (at-lt s p (ap is_live h.0)) ∙ h.0)
              made.filled refl),
        parts-CopyOf k p ref ts s s' made,
      )
  copies (suc fuel) (conjunction p ref ts) s h b =
      let k = Connective.conjunction in
      let ne = not_below s p h.0 in
      let (s', r, made) =
        copy_slots-copied fuel p (length s) ref (conjunct (roots ts)) k ne ts [] []
          (allocated k p ref ts s) (all_copies fuel ts)
          (allocated-Ready k p ref ts s fuel ne h.0 refl h.1) (omega arith) in
      (
        s',
        rw (load-done s p h.0, r)
            (compare_types-done s' p (length s)
              ((parts-CopyOf k p ref ts s s' made).old p (at-lt s p (ap is_live h.0)) ∙ h.0)
              made.filled refl),
        parts-CopyOf k p ref ts s s' made,
      )

  all_copies : (fuel : ℕ) (ts : Parts) → AllCopy fuel ts
  all_copies fuel end = tt
  all_copies fuel (part t ts) = (copies fuel t, all_copies fuel ts)

-- Of a formula in the store, whose parts may be shared, `boolformula_copy` makes a copy in new objects:
-- it ends with the address of an object that stands for the same formula and has the count 1; all
-- objects of the copy are new, and those that were there are what they were. If the reference counts were
-- right, they are when the caller holds the copy, too, and no reference is lost. As many nested calls as
-- the formula is deep are enough.
pub copy-CopyOf :
    (t : Placed) (s : Store) (fuel : ℕ)
    → IsIn s t
    → height t ≤ fuel
    → (s' : Store) × (copy fuel (root t) s ≡ done (length s, s')) × CopyOf s s' t
copy-CopyOf t s fuel h b = copies fuel t s h b
