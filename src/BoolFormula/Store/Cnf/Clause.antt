-- ===== src/BoolFormula/Store/Cnf/Clause.antt =====
-- One clause of `boolformula_to_cnf` on a store: an object with the literal `cur_neg` in its first slot.
use dorder.Prelude.{
  ℕ, suc, ◌+◌, ◌≤◌, ◌<◌, ◌≡◌, ◌≢◌, sym, ap, subst, ◌∙◌, List, [], ◌∷◌, ◌++◌, Option, none, some,
  done, arith, length, replicate,
}
use native.Mathlib.Decide.{ℕ_discrete}
use mathlib.Core.List.{append_assoc}
use dorder.BoolFormula.{Lit, BoolFormula, Formulas, nil, cons, append}
use dorder.BoolFormula.Store.{
  Ptr, Content, literal, disjunct, conjunct, node, Store, disjunction_new, add, set_subformula,
}
use dorder.BoolFormula.Store.Count.{HoldsNew, pointers-replicate, at, is_live, at-lt}
use dorder.BoolFormula.Store.Changes.{malloc-IsCounted, at-append_lt, at-append_self}
use dorder.BoolFormula.Store.Reads.{
  view, content_of, above, Reads, AllRead-Contains, AllRead-append, Contains, above-above,
  above-Contains, above_new, view-lt,
}
use dorder.BoolFormula.Store.Copy.Made.{lt→ne}
use dorder.BoolFormula.Store.Cnf.Steps.{add-Links, set-Links, Drops, length_new}
use dorder.BoolFormula.Store.Cnf.Made.{PlacesPart, Literals, Clauses}

-- A new clause at the end of `ret`, with `n` slots that are not written.
pub record Opens (s s' : Store) (cur_neg m n : ℕ) (cl : Lit) (ret : Ptr) (ref : ℕ)
    (v : List (Option Ptr)) : Type 0 where
  pub target : at s' (length s) ≡ node 2 (disjunct (some cur_neg ∷ replicate n none))
  pub result : at s' ret ≡ node ref (conjunct (v ++ some (length s) ∷ []))
  pub sign : at s' cur_neg ≡ node (m + 1) (literal cl)
  pub others : (q : Ptr) → q < length s → ret ≢ q → cur_neg ≢ q → at s' q ≡ at s q
  pub size : length s' ≡ suc (length s)
  pub counted : HoldsNew s s'

module _ (b cur_neg : ℕ) (cl : Lit) (ret : Ptr) (ref : ℕ) (front : ret < b)
    (behind : b ≤ cur_neg) where
  apart : ret ≢ cur_neg
  apart = lt→ne ret cur_neg (omega arith)

  pub opens :
      (s : Store) (m n : ℕ) (v : List (Option Ptr))
      → at s ret ≡ node ref (conjunct v)
      → at s cur_neg ≡ node m (literal cl)
      → (s₂ : Store) × (s₃ : Store) × (add ret (length s) (disjunction_new (suc n) s).1 ≡ done s₂)
        × (set_subformula (length s) 0 cur_neg s₂ ≡ done s₃)
        × Opens s s₃ cur_neg m n cl ret ref v
  opens s m n v at_ret at_neg =
      let c = disjunct (replicate (suc n) none) in
      let s₁ = (disjunction_new (suc n) s).1 in
      let in_ret = at-lt s ret (ap is_live at_ret) in
      let in_neg = at-lt s cur_neg (ap is_live at_neg) in
      let (s₂, r₂, l) =
        add-Links s₁ ret (length s) ref 1 v c (at-append_lt s _ ret in_ret ∙ at_ret)
          (at-append_self s (node 1 c)) (lt→ne ret (length s) in_ret) in
      let neg₂ =
        l.others cur_neg apart (λ e. lt→ne cur_neg (length s) in_neg (sym e))
        ∙ (at-append_lt s _ cur_neg in_neg ∙ at_neg) in
      let (s₃, r₃, l') =
        set-Links s₂ (length s) cur_neg 2 m [] (replicate n none) (literal cl) l.child neg₂
          (λ e. lt→ne cur_neg (length s) in_neg (sym e)) in
      (
        s₂,
        s₃,
        r₂,
        r₃,
        record {
          target = l'.parent;
          result =
              l'.others ret (λ e. lt→ne ret (length s) in_ret (sym e)) (λ e. apart (sym e))
              ∙ l.parent;
          sign = l'.child;
          others = λ q h x z.
              l'.others q (λ e. lt→ne q (length s) h (sym e)) z
              ∙ (l.others q x (λ e. lt→ne q (length s) h (sym e)) ∙ at-append_lt s _ q h);
          size = l'.size ∙ (l.size ∙ length_new s c);
          counted = λ lost held acc. l'.counted lost (length s ∷ held) (
              l.counted lost (length s ∷ held)
                (malloc-IsCounted lost s held acc c (pointers-replicate (suc n))));
        },
      )

  -- The clause is written and given up: `ret` holds it.
  module _ (s s₃ s₄ s₅ : Store) (m n : ℕ) (v : List (Option Ptr)) (lits cs : Formulas)
      (in_ret : ret < length s) (in_neg : cur_neg < length s)
      (o : Opens s s₃ cur_neg m n cl ret ref v)
      (w : Literals s₃ s₄
        (length s)
        2
        (some cur_neg ∷ [])
        ret
        ref
        (v ++ some (length s) ∷ [])
        lits
        cs)
      (d : Drops s₄ s₅ (length s) 1 (disjunct (some cur_neg ∷ w.written))) where
    keep : (p : Ptr) (c : Content) → length s₃ ≤ p → view s₄ p ≡ some c → view s₅ p ≡ some c
    keep p c h e = ap content_of (d.others p (lt→ne (length s) p (omega (arith, o.size)))) ∙ e

    carry : Contains (above (length s₃) (view s₄)) (above b (view s₅))
    carry p c e =
        above-above (length s₃) b (view s₅) (omega (arith, o.size)) p c
          (above-Contains (length s₃) s₄ s₅ keep p c e)

    sign₅ : at s₅ cur_neg ≡ node (m + 1) (literal cl)
    sign₅ =
        d.others cur_neg (λ e. lt→ne cur_neg (length s) in_neg (sym e))
        ∙ (w.old cur_neg (omega (arith, o.size)) apart
              (λ e. lt→ne cur_neg (length s) in_neg (sym e))
            ∙ o.sign)

    pub clause-Clauses :
        Clauses s s₅ b cur_neg m 1 cl ret ref v
          (cons (BoolFormula.disjunct (cons (BoolFormula.literal cl) lits)) cs)
    unfolding Reads
    clause-Clauses = record {
      sign = sign₅;
      clauses = some (length s) ∷ w.clauses;
      result =
          d.others ret (λ e. lt→ne ret (length s) in_ret (sym e))
          ∙ (w.result
              ∙ ap (λ u. node ref (conjunct u)) (append_assoc v (some (length s) ∷ []) w.clauses));
      read = (
        (
          some cur_neg ∷ w.written,
          above_new b s₅ (length s) _ (omega arith) (ap content_of d.self),
          (
            above_new b s₅ cur_neg _ behind (ap content_of sign₅),
            AllRead-Contains _ _ w.written lits carry w.literals,
          ),
        ),
        AllRead-Contains _ _ w.clauses cs carry w.read,
      );
      old = λ q h x z.
          d.others q (λ e. lt→ne q (length s) h (sym e))
          ∙ (w.old q (omega (arith, o.size)) x (λ e. lt→ne q (length s) h (sym e))
              ∙ o.others q h x z);
      grows = omega (arith, w.grows, o.size, d.size);
      counted = λ lost held acc.
          d.counted lost held (w.counted lost (length s ∷ held) (o.counted lost held acc));
    }

  -- Clauses, and more clauses.
  pub append-Clauses :
      (s s₁ s' : Store) (m n n' n'' : ℕ) (v : List (Option Ptr)) (cs cs' : Formulas)
      → n + n' ≡ n''
      → ret < length s
      → cur_neg < length s
      → (one : Clauses s s₁ b cur_neg m n cl ret ref v cs)
      → Clauses s₁ s' b cur_neg (m + n) n' cl ret ref (v ++ one.clauses) cs'
      → Clauses s s' b cur_neg m n'' cl ret ref v (append cs cs')
  append-Clauses s s₁ s' m n n' n'' v cs cs' total in_ret in_neg one two = record {
    sign = two.sign ∙ ap (λ u. node u (literal cl)) (omega (arith, total));
    clauses = one.clauses ++ two.clauses;
    result = two.result ∙ ap (λ u. node ref (conjunct u)) (append_assoc v one.clauses two.clauses);
    read =
        AllRead-append _ one.clauses two.clauses cs cs'
          (AllRead-Contains _ _ one.clauses cs (above-Contains b s₁ s' keep) one.read) two.read;
    old = λ q h x z. two.old q (omega (arith, one.grows)) x z ∙ one.old q h x z;
    grows = omega (arith, one.grows, two.grows);
    counted = λ lost held acc. two.counted lost held (one.counted lost held acc);
  }
    where
      keep : (p : Ptr) (c : Content) → b ≤ p → view s₁ p ≡ some c → view s' p ≡ some c
      keep p c h e = elim (ℕ_discrete cur_neg p) [
        | yes y ↦
            subst (λ q. view s₁ q ≡ some c → view s' q ≡ some c) y
              (λ z. ap content_of two.sign ∙ (sym (ap content_of one.sign) ∙ z)) e
        | no y ↦ ap content_of (two.old p (view-lt s₁ p c e) (lt→ne ret p (omega arith)) y) ∙ e
      ]

-- A clause of two literals.
pub part-Literals :
    (s s' : Store) (dis : Ptr) (k : ℕ) (pre : List (Option Ptr)) (ret : Ptr) (ref : ℕ)
    (v : List (Option Ptr)) (l : Lit) (cs : Formulas)
    → PlacesPart s s' dis k pre [] ret ref v l cs
    → Literals s s' dis k pre ret ref v (cons (BoolFormula.literal l) nil) cs
unfolding Reads
part-Literals s s' dis k pre ret ref v l cs w = record {
  written = some w.slot ∷ [];
  parent = w.parent;
  literals = (above_new (length s) s' w.slot (literal l) w.fresh w.there, tt);
  clauses = w.clauses;
  result = w.result;
  read = w.read;
  old = w.old;
  grows = w.grows;
  counted = w.counted;
}
