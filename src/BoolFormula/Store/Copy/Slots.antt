-- ===== src/BoolFormula/Store/Copy/Slots.antt =====
-- One round of the loop of `boolformula_copy`: a copy is written to a slot, and its count is 1 again.
use dorder.Prelude.{
  ℕ, suc, ◌+◌, ◌≡◌, ◌≢◌, refl, sym, ap, subst, ◌∙◌, true, List, [], ◌∷◌, ◌++◌, Option, none, some,
  Run, done, arith, length, set, get_elem?, ltb, lt→ltb, length-append, length-set,
}
use native.Mathlib.Decide.{ℕ_discrete}
use dorder.BoolFormula.Store.{
  Ptr, Content, disjunct, conjunct, node, Store, slots, read_slot, set_subformula, retain,
  write_slot, free,
}
use dorder.BoolFormula.Store.Count.{IsCounted, pointers, count, at, is_live}
use dorder.BoolFormula.Store.Free.{load-done, at-set_self, at-set_ne}
use dorder.BoolFormula.Store.Safe.{free_more}
use dorder.BoolFormula.Store.Calls.{drop-IsCounted}
use dorder.BoolFormula.Store.Counted.{fill-count, link-KeepsCounts}
use dorder.BoolFormula.Store.Copy.{copy_slots}

-- A connective.
pub data Connective : Type 0 where
  disjunction conjunction : Connective

abbrev pub content : Connective → List (Option Ptr) → Content
content disjunction v = disjunct v
content conjunction v = conjunct v

set-append :
    (pre rest : List (Option Ptr)) (y : Option Ptr) (g : Ptr)
    → set (pre ++ y ∷ rest) (length pre) (some g) ≡ pre ++ some g ∷ rest
set-append [] rest y g = refl
set-append (x ∷ pre) rest y g = ap (λ l. x ∷ l) (set-append pre rest y g)

pub write_slot-done :
    (k : Connective) (pre rest : List (Option Ptr)) (y : Option Ptr) (g : Ptr)
    → write_slot (content k (pre ++ y ∷ rest)) (length pre) g
      ≡ done (content k (pre ++ some g ∷ rest))
write_slot-done k pre rest y g = cases k
  where
    inside : ltb (length pre) (length (pre ++ y ∷ rest)) ≡ true
    inside = lt→ltb _ _ (omega (arith, length-append pre (y ∷ rest)))

    cases :
        (k : Connective)
        → write_slot (content k (pre ++ y ∷ rest)) (length pre) g
          ≡ done (content k (pre ++ some g ∷ rest))
    cases disjunction = rw (inside, set-append pre rest y g) refl
    cases conjunction = rw (inside, set-append pre rest y g) refl

pub slots-content : (k : Connective) (v : List (Option Ptr)) → slots (content k v) ≡ v
slots-content disjunction v = refl
slots-content conjunction v = refl

module _ (s : Store) (d : ℕ) (ret temp : Ptr) (k : Connective) (pre rest : List (Option Ptr))
    (c : Content) (at_ret : at s ret ≡ node d (content k (pre ++ none ∷ rest)))
    (at_temp : at s temp ≡ node 1 c) (ne : ret ≢ temp) where
  written : Store
  written = set s ret (node d (content k (pre ++ some temp ∷ rest)))

  written_temp : at written temp ≡ node 1 c
  unfolding written
  written_temp = at-set_ne s ret temp _ ne ∙ at_temp

  pub retained : Store
  retained = set written temp (node 2 c)

  retained_temp : at retained temp ≡ node 2 c
  unfolding retained
  retained_temp = at-set_self written temp _ (ap is_live written_temp)

  pub linked : Store
  linked = set retained temp (node 1 c)

  pub set-linked : set_subformula ret (length pre) temp s ≡ done retained
  unfolding set_subformula retain retained written
  set-linked =
      rw (load-done s ret at_ret, write_slot-done k pre rest none temp)
        (rw (load-done written temp written_temp) refl)

  pub free-linked : free (suc (length retained)) temp retained ≡ done linked
  unfolding linked
  free-linked = free_more (length retained) temp retained 2 c retained_temp (omega arith)

  pub linked_ret : at linked ret ≡ node d (content k (pre ++ some temp ∷ rest))
  unfolding linked retained written
  linked_ret =
      at-set_ne retained temp ret _ (λ e. ne (sym e))
      ∙ (at-set_ne written temp ret _ (λ e. ne (sym e)) ∙ at-set_self s ret _ (ap is_live at_ret))

  pub linked_others : (q : Ptr) → ret ≢ q → at linked q ≡ at s q
  unfolding linked retained written
  linked_others q other = elim (ℕ_discrete temp q) [
    | yes e ↦
        subst (λ r. at linked r ≡ at s r) e
          (at-set_self retained temp _ (ap is_live retained_temp) ∙ sym at_temp)
    | no diff ↦
        at-set_ne retained temp q _ diff
        ∙ (at-set_ne written temp q _ diff ∙ at-set_ne s ret q _ other)
  ]

  pub length-linked : length linked ≡ length s
  unfolding linked retained written
  length-linked = length-set retained temp _ ∙ (length-set written temp _ ∙ length-set s ret _)

  -- The pointer that its maker holds becomes that of the slot.
  pub linked-IsCounted :
      (lost : Ptr → ℕ) (held : List Ptr)
      → IsCounted lost s (temp ∷ held)
      → IsCounted lost linked held
  unfolding linked retained written
  linked-IsCounted lost held acc =
      drop-IsCounted lost retained temp held
        (link-KeepsCounts s ret temp d 1 _ _ c at_ret at_temp ne counts lost (temp ∷ held) acc) 2 c
        retained_temp
    where
      counts :
          (p : Ptr)
          → count p (pointers (slots (content k (pre ++ some temp ∷ rest))))
            ≡ count p (pointers (slots (content k (pre ++ none ∷ rest)))) + count p (temp ∷ [])
      counts p =
          rw (slots-content k (pre ++ some temp ∷ rest), slots-content k (pre ++ none ∷ rest))
            (fill-count pre rest temp p)

nth :
    (pre rest : List (Option Ptr)) (g : Ptr)
    → get_elem? (pre ++ some g ∷ rest) (length pre) ≡ some (some g)
nth [] rest g = refl
nth (y ∷ pre) rest g = nth pre rest g

-- A read of the slot after `pre`.
pub read_slot-done :
    (s : Store) (f : Ptr) (i ref : ℕ) (c : Content) (pre rest : List (Option Ptr)) (g : Ptr)
    → at s f ≡ node ref c
    → slots c ≡ pre ++ some g ∷ rest
    → length pre ≡ i
    → read_slot f i s ≡ done g
unfolding read_slot
read_slot-done s f i ref c pre rest g e q l = rw (load-done s f e, q, sym l, nth pre rest g) refl

pub copy_slots_step :
    (call : Ptr → Store → Run (Ptr × Store)) (f ret g temp : Ptr) (pre rest : List (Option Ptr))
    (i n ref : ℕ) (c : Content) (s s₁ s₂ s₃ s' : Store)
    → at s f ≡ node ref c
    → slots c ≡ pre ++ some g ∷ rest
    → length pre ≡ i
    → call g s ≡ done (temp, s₁)
    → set_subformula ret i temp s₁ ≡ done s₂
    → free (suc (length s₂)) temp s₂ ≡ done s₃
    → copy_slots call f ret (suc i) n s₃ ≡ done s'
    → copy_slots call f ret i (suc n) s ≡ done s'
unfolding copy_slots
copy_slots_step call f ret g temp pre rest i n ref c s s₁ s₂ s₃ s' e q l r₁ r₂ r₃ r₄ =
    rw (read_slot-done s f i ref c pre rest g e q l, r₁) (rw (r₂, r₃) r₄)
