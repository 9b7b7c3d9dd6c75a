-- ===== src/CdnfFormula/Store/Fills.antt =====
-- The loop of cdnfformula.c that fills the slots of a new formula on the store.
use dorder.Prelude.{
  get_or-ge, ℕ, suc, ◌≤◌, ◌<◌, ◌≡◌, ◌≢◌, refl, sym, ap, subst, ◌∙◌, List, [], ◌∷◌, ◌++◌, Option,
  none, some, Run, done, arith, length, replicate, length-append,
}
use mathlib.Core.List.{append_assoc}
use dorder.BoolFormula.{BoolFormula, Formulas, nil, cons}
use dorder.BoolFormula.Store.{Ptr, Content, freed, node, Store}
use dorder.BoolFormula.Store.Count.{
  cell_slots, at, pointers, pointers-replicate, KeepsCounts, HoldsNew,
}
use dorder.BoolFormula.Store.Free.{IsFilled, IsFull}
use dorder.BoolFormula.Store.Changes.{malloc-IsCounted, at-append_lt, at-append_self}
use dorder.BoolFormula.Store.Reads.{
  view, content_of, above, Reads, AllRead, Reads-Contains, AllRead-Contains, Contains,
  above-Contains, above-above, above-view, above_new, view-lt, NewFormula,
}
use dorder.BoolFormula.Store.Copy.Made.{lt→ne, IsFull-cons, IsFull-trans}
use dorder.BoolFormula.Store.Copy.Slots.{
  Connective, content, slots-content, linked, set-linked, free-linked, linked_ret, linked_others,
  length-linked, linked-IsCounted,
}
use dorder.CdnfFormula.Store.{fill_slots}

-- The object after the last one of `s` stands for the formula, all of which is new.
pub record Builds (s s' : Store) (f : BoolFormula) : Type 0 where
  pub there : Reads (above (length s) (view s')) (length s) f
  pub top : Content
  pub single : at s' (length s) ≡ node 1 top
  pub old : (q : Ptr) → q < length s → at s' q ≡ at s q
  pub grows : length s < length s'
  pub counted : HoldsNew s s'
  pub full : IsFull s s'

pub Builds-NewFormula : (s s' : Store) (f : BoolFormula) → Builds s s' f → NewFormula s s' f
Builds-NewFormula s s' f b = record {
  there = Reads-Contains _ _ (length s) f (above-view (length s) (view s')) b.there;
  top = b.top;
  single = b.single;
  old = b.old;
  counted = b.counted;
}

-- The slots of `ret` after `pre` hold the formulas, which are objects from `b` on; no object but `ret` has
-- changed.
pub record Fills (s s' : Store) (ret : Ptr) (b : ℕ) (k : Connective) (pre : List (Option Ptr))
    (fs : Formulas) : Type 0 where
  pub written : List (Option Ptr)
  pub target : at s' ret ≡ node 1 (content k (pre ++ written))
  pub read : AllRead (above b (view s')) written fs
  pub old : (q : Ptr) → q < length s → ret ≢ q → at s' q ≡ at s q
  pub grows : length s ≤ length s'
  pub counted : KeepsCounts s s'
  pub full : IsFull s s'
  pub filled : IsFilled written

module _ {ℓ} {A : Type ℓ} (make : A → Store → Run (Ptr × Store)) (to : A → BoolFormula)
    (makes : (x : A) (s : Store)
      → (s' : Store) × (make x s ≡ done (length s, s')) × Builds s s' (to x)) where
  abbrev pub each : List A → Formulas
  each [] = nil
  each (x ∷ xs) = cons (to x) (each xs)

  module _ (ret : Ptr) (b : ℕ) (k : Connective) (front : ret < b) where
    -- One round of the loop.
    module _ (s s₁ : Store) (pre blanks : List (Option Ptr)) (f : BoolFormula) (one : Builds s s₁ f)
        (room : ret < length s) (inside : b ≤ length s)
        (at_ret : at s ret ≡ node 1 (content k (pre ++ none ∷ blanks))) where
      apart : ret ≢ length s
      apart = lt→ne ret (length s) room

      at_ret₁ : at s₁ ret ≡ node 1 (content k (pre ++ none ∷ blanks))
      at_ret₁ = one.old ret room ∙ at_ret

      next : Store
      next = linked s₁ 1 ret (length s) k pre blanks one.top at_ret₁ one.single apart

      others : (q : Ptr) → ret ≢ q → at next q ≡ at s₁ q
      unfolding next
      others = linked_others s₁ 1 ret (length s) k pre blanks one.top at_ret₁ one.single apart

      length-next : length next ≡ length s₁
      unfolding next
      length-next = length-linked s₁ 1 ret (length s) k pre blanks one.top at_ret₁ one.single apart

      target : at next ret ≡ node 1 (content k ((pre ++ some (length s) ∷ []) ++ blanks))
      unfolding next
      target =
          linked_ret s₁ 1 ret (length s) k pre blanks one.top at_ret₁ one.single apart
          ∙ ap (λ v. node 1 (content k v)) (sym (append_assoc pre (some (length s) ∷ []) blanks))

      join :
          (s' : Store) (fs : Formulas)
          → Fills next s' ret b k (pre ++ some (length s) ∷ []) fs
          → Fills s s' ret b k pre (cons f fs)
      unfolding next Reads
      join s' fs two = record {
        written = some (length s) ∷ two.written;
        target =
            two.target
            ∙ ap (λ v. node 1 (content k v)) (append_assoc pre (some (length s) ∷ []) two.written);
        read = (Reads-Contains _ _ (length s) f carry one.there, two.read);
        old = λ q h d.
            two.old q (omega (arith, one.grows, length-next)) d ∙ (others q d ∙ one.old q h);
        grows = omega (arith, one.grows, two.grows, length-next);
        counted = λ lost held acc. two.counted lost held (
            linked-IsCounted s₁ 1 ret (length s) k pre blanks one.top at_ret₁ one.single apart lost
              held (one.counted lost held acc));
        full =
            IsFull-trans s next s'
              (λ q b.
                subst (λ x. IsFilled (cell_slots x)) (sym (others q (lt→ne ret q (omega arith))))
                  (one.full q b))
              two.full (λ q b h. two.old q h (lt→ne ret q (omega arith)));
        filled = two.filled;
      }
        where
          keep : (q : Ptr) (c : Content) → length s ≤ q → view s₁ q ≡ some c → view s' q ≡ some c
          keep q c h e =
              let ne = lt→ne ret q (omega arith) in
              ap content_of
                (two.old q (omega (arith, view-lt s₁ q c e, length-next)) ne ∙ others q ne)
              ∙ e

          carry : Contains (above (length s) (view s₁)) (above b (view s'))
          carry q c e =
              above-above (length s) b (view s') inside q c
                (above-Contains (length s) s₁ s' keep q c e)

      step :
          (s' : Store) (x : A) (xs : List A)
          → make x s ≡ done (length s, s₁)
          → fill_slots make ret (length (pre ++ some (length s) ∷ [])) xs next ≡ done s'
          → fill_slots make ret (length pre) (x ∷ xs) s ≡ done s'
      unfolding fill_slots next
      step s' x xs r₁ r = rw r₁ (
          rw
            (
              set-linked s₁ 1 ret (length s) k pre blanks one.top at_ret₁ one.single apart,
              free-linked s₁ 1 ret (length s) k pre blanks one.top at_ret₁ one.single apart,
            )
            (subst (λ i. fill_slots make ret i xs next ≡ done s') (next_index pre) r))
        where
          next_index :
              (pre : List (Option Ptr)) → length (pre ++ some (length s) ∷ []) ≡ suc (length pre)
          next_index pre = omega (arith, length-append pre (some (length s) ∷ []))

    fill_slots-Fills :
        (xs : List A) (pre : List (Option Ptr)) (s : Store)
        → b ≤ length s
        → at s ret ≡ node 1 (content k (pre ++ replicate (length xs) none))
        → (s' : Store) × (fill_slots make ret (length pre) xs s ≡ done s')
          × Fills s s' ret b k pre (each xs)
    unfolding fill_slots Reads
    fill_slots-Fills [] pre s inside at_ret = (
      s,
      refl,
      record {
        written = [];
        target = at_ret;
        read = tt;
        old = λ q h d. refl;
        grows = omega arith;
        counted = λ lost held acc. acc;
        full = λ q b. subst (λ x. IsFilled (cell_slots x)) (sym (get_or-ge s q freed b)) tt;
        filled = tt;
      },
    )
    fill_slots-Fills (x ∷ xs) pre s inside at_ret =
        let blanks : List (Option Ptr) = replicate (length xs) none in
        let (s₁, r₁, one) = makes x s in
        let room : ret < length s = omega arith in
        let next₁ = next s s₁ pre blanks (to x) one room inside at_ret in
        let (s', r, two) =
          fill_slots-Fills xs (pre ++ some (length s) ∷ []) next₁
            (omega (arith, one.grows, length-next s s₁ pre blanks (to x) one room inside at_ret))
            (target s s₁ pre blanks (to x) one room inside at_ret) in
        (
          s',
          step s s₁ pre blanks (to x) one room inside at_ret s' x xs r₁ r,
          join s s₁ pre blanks (to x) one room inside at_ret s' (each xs) two,
        )

  abbrev compose : Connective → Formulas → BoolFormula
  compose Connective.disjunction fs = BoolFormula.disjunct fs
  compose Connective.conjunction fs = BoolFormula.conjunct fs

  composed :
      (k : Connective) (s' : Store) (n : ℕ) (ret : Ptr) (v : List (Option Ptr)) (fs : Formulas)
      → above n (view s') ret ≡ some (content k v)
      → AllRead (above n (view s')) v fs
      → Reads (above n (view s')) ret (compose k fs)
  unfolding Reads
  composed Connective.disjunction s' n ret v fs e r = (v, e, r)
  composed Connective.conjunction s' n ret v fs e r = (v, e, r)

  -- A new formula with a slot for each element.
  pub fill_slots-Builds :
      (k : Connective) (xs : List A) (s : Store)
      → (s' : Store) × (fill_slots make
            (length s)
            0
            xs
            (s ++ node 1 (content k (replicate (length xs) none)) ∷ [])
          ≡ done s')
        × Builds s s' (compose k (each xs))
  fill_slots-Builds k xs s =
      let c = content k (replicate (length xs) none) in
      let s₀ = s ++ node 1 c ∷ [] in
      let size = length-append s (node 1 c ∷ []) in
      let (s', r, w) =
        fill_slots-Fills (length s) (suc (length s)) k (omega arith) xs [] s₀ (omega (arith, size))
          (at-append_self s (node 1 c)) in
      (
        s',
        r,
        record {
          there =
              composed k s' (length s) (length s) w.written (each xs)
                (above_new (length s) s' (length s) _ (omega arith) (ap content_of w.target))
                (AllRead-Contains _ _ w.written (each xs)
                  (above-above (suc (length s)) (length s) (view s') (omega arith)) w.read);
          top = content k w.written;
          single = w.target;
          old = λ q h.
              w.old q (omega (arith, size)) (λ e. lt→ne q (length s) h (sym e))
              ∙ at-append_lt s _ q h;
          grows = omega (arith, w.grows, size);
          counted = λ lost held acc. w.counted lost (length s ∷ held) (
              malloc-IsCounted lost s held acc c
                (ap pointers (slots-content k _) ∙ pointers-replicate (length xs)));
          full =
              IsFull-cons s s₀ s' (length s) refl (omega (arith, size))
                (subst (λ x. IsFilled (cell_slots x)) (sym w.target)
                  (subst IsFilled (sym (slots-content k w.written)) w.filled))
                w.full;
        },
      )
