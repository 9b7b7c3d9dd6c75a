-- ===== src/BoolFormula/Store/Copy/Rounds.antt =====
-- The loop of `boolformula_copy`, round by round.
use dorder.Prelude.{
  ℕ, suc, ◌+◌, ◌≤◌, ◌<◌, ◌≡◌, ◌≢◌, refl, sym, ap, subst, ◌∙◌, List, [], ◌∷◌, ◌++◌, Option, some,
  none, done, arith, length, replicate, length-append, get_or-ge,
}
use native.Mathlib.Decide.{dec_lt}
use mathlib.Core.List.{append_assoc}
use dorder.BoolFormula.Store.{Ptr, Content, freed, node, Store, slots}
use dorder.BoolFormula.Store.Count.{cell_slots, count, at, is_live, at-lt, count-append}
use dorder.BoolFormula.Store.Free.{IsFilled}
use dorder.BoolFormula.Store.Placed.{
  Placed, Parts, end, part, root, roots, addresses, all_addresses, height, heights, formula_of,
  IsIn, AllIn,
}
use dorder.BoolFormula.Store.Frame.{frame, frame_all}
use dorder.BoolFormula.Store.Copy.{copy, copy_slots}
use dorder.BoolFormula.Store.Copy.Slots.{
  Connective, content, linked, retained, set-linked, free-linked, linked_ret, linked_others,
  length-linked, linked-IsCounted, copy_slots_step,
}
use dorder.BoolFormula.Store.Copy.Made.{
  lt→ne, all_below, CopyOf, SlotsCopied, AllCopy, IsFull-trans,
}

next_index : (pre : List (Option Ptr)) (p : Ptr) → length (pre ++ some p ∷ []) ≡ suc (length pre)
next_index pre p = omega (arith, length-append pre (some p ∷ []))

module _ (fuel : ℕ) (f ret : Ptr) (ref : ℕ) (c : Content) (k : Connective) (ne : ret ≢ f) where
  -- What the loop starts from.
  pub record Ready (s : Store) (pre₀ pre : List (Option Ptr)) (ts : Parts) : Type 0 where
    pub source : at s f ≡ node ref c
    pub split : slots c ≡ pre₀ ++ roots ts
    pub sizes : length pre₀ ≡ length pre
    pub target : at s ret ≡ node 1 (content k (pre ++ replicate (length (roots ts)) none))
    pub apart : count ret (all_addresses ts) ≡ 0
    pub room : ret < length s
    pub present : AllIn s ts

  -- One round: `t` is copied, and the copy is linked.
  module _ (t : Placed) (ts : Parts) (pre₀ pre : List (Option Ptr)) (s s₁ : Store)
      (w : Ready s pre₀ pre (part t ts)) (one : CopyOf s s₁ t) where
    apart_temp : ret ≢ length s
    apart_temp = lt→ne ret (length s) w.room

    blanks : List (Option Ptr)
    blanks = replicate (length (roots ts)) none

    target₁ : at s₁ ret ≡ node 1 (content k (pre ++ none ∷ blanks))
    unfolding blanks
    target₁ = one.old ret w.room ∙ w.target

    next : Store
    next = linked s₁ 1 ret (length s) k pre blanks one.top target₁ one.single apart_temp

    others : (q : Ptr) → ret ≢ q → at next q ≡ at s₁ q
    unfolding next
    others = linked_others s₁ 1 ret (length s) k pre blanks one.top target₁ one.single apart_temp

    length-next : length next ≡ length s₁
    unfolding next
    length-next =
        length-linked s₁ 1 ret (length s) k pre blanks one.top target₁ one.single apart_temp

    counts :
        (q : Ptr)
        → count q (all_addresses (part t ts)) ≡ count q (addresses t) + count q (all_addresses ts)
    unfolding addresses
    counts q = count-append q (addresses t) (all_addresses ts)

    next-Ready : Ready next (pre₀ ++ some (root t) ∷ []) (pre ++ some (length s) ∷ []) ts
    unfolding next IsIn addresses blanks
    next-Ready = record {
      source = others f ne ∙ (one.old f (at-lt s f (ap is_live w.source)) ∙ w.source);
      split = w.split ∙ sym (append_assoc pre₀ (some (root t) ∷ []) (roots ts));
      sizes = omega (
        arith,
        w.sizes,
        length-append pre₀ (some (root t) ∷ []),
        length-append pre (some (length s) ∷ []),
      );
      target =
          linked_ret s₁ 1 ret (length s) k pre blanks one.top target₁ one.single apart_temp
          ∙ ap (λ v. node 1 (content k v)) (sym (append_assoc pre (some (length s) ∷ []) blanks));
      apart = omega (arith, w.apart, counts ret);
      room = omega (arith, w.room, one.grows, length-next);
      present =
          frame_all s next ts
            (λ q z. others q (not_ret q z) ∙ one.old q (all_below s ts q w.present.1 z))
            w.present.1;
    }
      where
        not_ret : (q : Ptr) → 0 < count q (all_addresses ts) → ret ≢ q
        not_ret q z e = positive (subst (λ r. 0 < count r (all_addresses ts)) (sym e) z)
          where
            positive : 0 < count ret (all_addresses ts) → ⊥
            positive h = omega (arith, w.apart, counts ret)

    step :
        (s' : Store)
        → copy fuel (root t) s ≡ done (length s, s₁)
        → copy_slots (copy fuel) f ret (suc (length pre)) (length (roots ts)) next ≡ done s'
        → copy_slots (copy fuel) f ret (length pre) (suc (length (roots ts))) s ≡ done s'
    unfolding next
    step s' r₁ r =
        copy_slots_step (copy fuel) f ret (root t) (length s) pre₀ (roots ts) (length pre)
          (length (roots ts)) ref c s s₁
          (retained s₁ 1 ret (length s) k pre blanks one.top target₁ one.single apart_temp) next s'
          w.source w.split w.sizes r₁
          (set-linked s₁ 1 ret (length s) k pre blanks one.top target₁ one.single apart_temp)
          (free-linked s₁ 1 ret (length s) k pre blanks one.top target₁ one.single apart_temp) r

    join :
        (s' : Store)
        → SlotsCopied next s' ret k (pre ++ some (length s) ∷ []) ts
        → SlotsCopied s s' ret k pre (part t ts)
    unfolding next IsIn addresses formula_of
    join s' two = record {
      parts = part one.tree two.parts;
      present = (
        frame s₁ s' one.tree
            (λ q z.
              let (low, high) = one.fresh q z in
              two.old q (omega (arith, length-next)) (lt→ne ret q (omega (arith, w.room)))
              ∙ others q (lt→ne ret q (omega (arith, w.room))))
            one.present,
        two.present,
      );
      formulas = rw (one.formula, two.formulas) refl;
      filled =
          two.filled
          ∙ ap (λ v. node 1 (content k v))
              (append_assoc pre (some (length s) ∷ []) (roots two.parts)
                ∙ ap (λ p. pre ++ some p ∷ roots two.parts) (sym one.at_root));
      fresh = λ q z. elim (dec_lt 0 (count q (addresses one.tree))) [
        | yes y ↦ let (low, high) = one.fresh q y in (low, omega (arith, two.grows, length-next))
        | no y ↦
            let (low, high) =
              two.fresh q
                (omega (arith, count-append q (addresses one.tree) (all_addresses two.parts))) in
            (omega (arith, one.grows, length-next), high)
      ];
      old =
          λ q z d. two.old q (omega (arith, one.grows, length-next)) d ∙ (others q d ∙ one.old q z);
      grows = omega (arith, one.grows, two.grows, length-next);
      counted = λ lost held acc. two.counted lost held (
          linked-IsCounted s₁ 1 ret (length s) k pre blanks one.top target₁ one.single apart_temp
            lost held (one.counted lost held acc));
      full =
          IsFull-trans s next s'
            (λ q b.
              subst (λ x. IsFilled (cell_slots x))
                (sym (others q (lt→ne ret q (omega (arith, w.room))))) (one.full q b))
            two.full (λ q b h. two.old q h (lt→ne ret q (omega (arith, w.room))));
    }

  pub copy_slots-copied :
      (ts : Parts) (pre₀ pre : List (Option Ptr)) (s : Store)
      → AllCopy fuel ts
      → Ready s pre₀ pre ts
      → heights ts ≤ fuel
      → (s' : Store) × (copy_slots (copy fuel) f ret (length pre) (length (roots ts)) s ≡ done s')
        × SlotsCopied s s' ret k pre ts
  unfolding copy_slots IsIn addresses height formula_of
  copy_slots-copied end pre₀ pre s ns w b = (
    s,
    refl,
    record {
      parts = end;
      present = tt;
      formulas = refl;
      filled = w.target;
      fresh = λ q z. absurd (omega arith);
      old = λ q z d. refl;
      grows = omega arith;
      counted = λ lost held acc. acc;
      full = λ q b. subst (λ x. IsFilled (cell_slots x)) (sym (get_or-ge s q freed b)) tt;
    },
  )
  copy_slots-copied (part t ts) pre₀ pre s ns w b =
      let (s₁, r₁, one) = ns.0 s w.present.0 (omega arith) in
      let (s', r, two) =
        copy_slots-copied ts (pre₀ ++ some (root t) ∷ []) (pre ++ some (length s) ∷ [])
          (next t ts pre₀ pre s s₁ w one) ns.1 (next-Ready t ts pre₀ pre s s₁ w one)
          (omega arith) in
      (
        s',
        step t ts pre₀ pre s s₁ w one s' r₁ (
            subst
              (λ i.
                copy_slots (copy fuel) f ret i (length (roots ts)) (next t ts pre₀ pre s s₁ w one)
                ≡ done s')
              (next_index pre (length s)) r),
        join t ts pre₀ pre s s₁ w one s' two,
      )
