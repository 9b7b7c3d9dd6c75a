-- ===== src/BoolFormula/Store/Cnf/Sign.antt =====
-- The literal `cur_neg` of `add_clauses_to_boolformula` on a store, from its making to its release.
use dorder.Prelude.{
  ℕ, false, ◌==◌, suc, ◌+◌, ◌≤◌, ◌<◌, ◌≡◌, refl, sym, ap, subst, ◌∙◌, pos, negate, List, [], ◌∷◌,
  ◌++◌, Option, some, done, arith, length, set, length-set,
}
use native.Mathlib.Decide.{ℕ_discrete}
use mathlib.Core.List.{append-nil}
use dorder.BoolFormula.{Lit, Formulas, nil, lit_complement}
use dorder.BoolFormula.Store.{Ptr, Content, literal, conjunct, node, freed, Store, for_slots, free}
use dorder.BoolFormula.Store.Count.{at}
use dorder.BoolFormula.Store.Free.{at-set_ne}
use dorder.BoolFormula.Store.Calls.{last-IsCounted}
use dorder.BoolFormula.Store.Safe.{free_last}
use dorder.BoolFormula.Store.Changes.{malloc-IsCounted, at-append_lt, at-append_self}
use dorder.BoolFormula.Store.Reads.{view, content_of, Reads, AllRead-Contains, above-Contains}
use dorder.BoolFormula.Store.Copy.Made.{lt→ne}
use dorder.BoolFormula.Store.Cnf.Steps.{Drops, free-Drops, length_new}
use dorder.BoolFormula.Store.Cnf.Made.{Adds, Clauses}

-- The store with the new literal.
abbrev pub signed : Store → Lit → Store
signed s l = s ++ node 1 (literal l) ∷ []

pub complement-done : (n : ℕ) → 0 < n → lit_complement (pos n) ≡ done (negate (pos n))
unfolding lit_complement
complement-done n h = rw positive refl
  where
    positive : (n == 0) ≡ false
    positive = ground arith

-- The last pointer to a literal.
pub free-literal :
    (fuel : ℕ) (s : Store) (p : Ptr) (l : Lit)
    → at s p ≡ node 1 (literal l)
    → free (suc fuel) p s ≡ done (set s p freed)
unfolding for_slots
free-literal fuel s p l e = free_last fuel p s s 1 (literal l) e (omega arith) refl e

module _ (s : Store) (cl : Lit) (ret : Ptr) (ref : ℕ) (v : List (Option Ptr))
    (room : ret < length s) where
  -- No clause was added.
  pub nil-Adds :
      at s ret ≡ node ref (conjunct v)
      → (s' : Store) × (free (suc (length (signed s cl))) (length s) (signed s cl) ≡ done s')
        × Adds s s' ret ref v nil
  unfolding Reads
  nil-Adds at_ret = (
    set (signed s cl) (length s) freed,
    free-literal _ (signed s cl) (length s) cl (at-append_self s _),
    record {
      clauses = [];
      result = same ret room ∙ (at_ret ∙ ap (λ u. node ref (conjunct u)) (sym (append-nil v)));
      read = tt;
      old = λ q h a. same q h;
      grows = omega (arith, length-set (signed s cl) (length s) freed, length_new s (literal cl));
      counted = λ lost held acc.
          last-IsCounted lost (signed s cl) (length s) held
            (malloc-IsCounted lost s held acc (literal cl) refl) 1 (literal cl) (at-append_self s _)
            (omega arith);
    },
  )
    where
      same : (q : Ptr) → q < length s → at (set (signed s cl) (length s) freed) q ≡ at s q
      same q h =
          at-set_ne (signed s cl) (length s) q freed (λ e. lt→ne q (length s) h (sym e))
          ∙ at-append_lt s _ q h

  -- The clauses that were added hold the literal.
  pub Clauses-Adds :
      (s' : Store) (n : ℕ) (cs : Formulas)
      → Clauses (signed s cl) s' (length s) (length s) 1 (suc n) cl ret ref v cs
      → (s'' : Store) × (free (suc (length s')) (length s) s' ≡ done s'') × Adds s s'' ret ref v cs
  Clauses-Adds s' n cs c =
      let here = c.sign ∙ ap (λ u. node u (literal cl)) (count n) in
      let (s'', r, d) = free-Drops (length s') s' (length s) n (literal cl) here in
      (
        s'',
        r,
        record {
          clauses = c.clauses;
          result = d.others ret (λ e. lt→ne ret (length s) room (sym e)) ∙ c.result;
          read =
              AllRead-Contains _ _ c.clauses cs (above-Contains (length s) s' s'' (keep s'' here d))
                c.read;
          old = λ q h x.
              d.others q (λ e. lt→ne q (length s) h (sym e))
              ∙ (c.old q (omega (arith, length_new s (literal cl))) x
                    (λ e. lt→ne q (length s) h (sym e))
                  ∙ at-append_lt s _ q h);
          grows = omega (arith, c.grows, d.size, length_new s (literal cl));
          counted = λ lost held acc. d.counted lost held (
              c.counted lost (length s ∷ held)
                (malloc-IsCounted lost s held acc (literal cl) refl));
        },
      )
    where
      count : (n : ℕ) → 1 + suc n ≡ suc (suc n)
      count n = omega arith

      keep :
          (s'' : Store)
          → at s' (length s) ≡ node (suc (suc n)) (literal cl)
          → Drops s' s'' (length s) (suc n) (literal cl)
          → (p : Ptr) (c : Content) → length s ≤ p
          → view s' p ≡ some c
          → view s'' p ≡ some c
      keep s'' here d p c h e = elim (ℕ_discrete (length s) p) [
        | yes y ↦
            subst (λ q. view s' q ≡ some c → view s'' q ≡ some c) y
              (λ z. ap content_of d.self ∙ (sym (ap content_of here) ∙ z)) e
        | no y ↦ ap content_of (d.others p y) ∙ e
      ]
