-- ===== src/BoolFormula/Store/Cnf/Steps.antt =====
-- The steps of `boolformula_to_cnf` on a store: adding a new object, writing to a slot, placing a
-- literal, and giving a pointer back that is held elsewhere.
use dorder.Prelude.{
  none, ℕ, suc, ◌+◌, ◌-◌, ◌<◌, ◌≡◌, ◌≢◌, refl, sym, ap, ◌∙◌, List, [], ◌∷◌, ◌++◌, Option, some,
  done, arith, length, length-append, length-set, set,
}
use dorder.BoolFormula.{Lit}
use dorder.BoolFormula.Store.{
  Ptr, Content, literal, disjunct, conjunct, node, Store, slots, retain, add, set_subformula, free,
}
use dorder.BoolFormula.Store.Count.{IsCounted, KeepsCounts, pointers, count, at, is_live, at-lt}
use dorder.BoolFormula.Store.Free.{load-done, at-set_self, at-set_ne}
use dorder.BoolFormula.Store.Safe.{free_more}
use dorder.BoolFormula.Store.Calls.{drop-IsCounted}
use dorder.BoolFormula.Store.Counted.{add-count, fill-count, link-KeepsCounts}
use dorder.BoolFormula.Store.Changes.{malloc-IsCounted, at-append_lt, at-append_self}
use dorder.BoolFormula.Store.Copy.Slots.{
  Connective, write_slot-done, linked, set-linked, free-linked, linked_ret, linked_others,
  length-linked, linked-IsCounted,
}
use dorder.BoolFormula.Store.Copy.Made.{lt→ne}
use dorder.BoolFormula.Store.Cnf.{place}

-- A write of `g` to a vector of `f`.
pub record Links (s s' : Store) (f g : Ptr) (ref k : ℕ) (c d : Content) : Type 0 where
  pub parent : at s' f ≡ node ref c
  pub child : at s' g ≡ node (k + 1) d
  pub others : (q : Ptr) → f ≢ q → g ≢ q → at s' q ≡ at s q
  pub size : length s' ≡ length s
  pub counted : KeepsCounts s s'

module _ (s : Store) (f g : Ptr) (ref k : ℕ) (c d : Content) (c₀ : Content)
    (at_f : at s f ≡ node ref c₀) (at_g : at s g ≡ node k d) (ne : f ≢ g)
    (step : (p : Ptr)
      → count p (pointers (slots c)) ≡ count p (pointers (slots c₀)) + count p (g ∷ [])) where
  retain-Links :
      (s' : Store) × (retain g (set s f (node ref c)) ≡ done s') × Links s s' f g ref k c d
  unfolding retain
  retain-Links =
      let s₁ = set s f (node ref c) in
      let at₁ = at-set_ne s f g (node ref c) ne ∙ at_g in
      let live = ap is_live at₁ in
      (
        set s₁ g (node (k + 1) d),
        rw (load-done s₁ g at₁) refl,
        record {
          parent =
              at-set_ne s₁ g f (node (k + 1) d) (λ e. ne (sym e))
              ∙ at-set_self s f (node ref c) (ap is_live at_f);
          child = at-set_self s₁ g (node (k + 1) d) live;
          others = λ q a b. at-set_ne s₁ g q (node (k + 1) d) b ∙ at-set_ne s f q (node ref c) a;
          size = length-set s₁ g (node (k + 1) d) ∙ length-set s f (node ref c);
          counted = link-KeepsCounts s f g ref k c₀ c d at_f at_g ne step;
        },
      )

pub add-Links :
    (s : Store) (f g : Ptr) (ref k : ℕ) (v : List (Option Ptr)) (d : Content)
    → at s f ≡ node ref (conjunct v)
    → at s g ≡ node k d
    → f ≢ g
    → (s' : Store) × (add f g s ≡ done s') × Links s s' f g ref k (conjunct (v ++ some g ∷ [])) d
unfolding add
add-Links s f g ref k v d e e' ne =
    let (s', r, l) =
      retain-Links s f g ref k (conjunct (v ++ some g ∷ [])) d (conjunct v) e e' ne
        (add-count v g) in
    (s', rw (load-done s f e) r, l)

pub set-Links :
    (s : Store) (f g : Ptr) (ref k : ℕ) (pre rest : List (Option Ptr)) (d : Content)
    → at s f ≡ node ref (disjunct (pre ++ none ∷ rest))
    → at s g ≡ node k d
    → f ≢ g
    → (s' : Store) × (set_subformula f (length pre) g s ≡ done s')
      × Links s s' f g ref k (disjunct (pre ++ some g ∷ rest)) d
unfolding set_subformula
set-Links s f g ref k pre rest d e e' ne =
    let (s', r, l) =
      retain-Links s f g ref k (disjunct (pre ++ some g ∷ rest)) d (disjunct (pre ++ none ∷ rest)) e
        e' ne (fill-count pre rest g) in
    (s', rw (load-done s f e, write_slot-done Connective.disjunction pre rest none g) r, l)

-- Giving up a pointer that has another holder.
pub record Drops (s s' : Store) (p : Ptr) (k : ℕ) (c : Content) : Type 0 where
  pub self : at s' p ≡ node k c
  pub others : (q : Ptr) → p ≢ q → at s' q ≡ at s q
  pub size : length s' ≡ length s
  pub counted :
      (lost : Ptr → ℕ) (held : List Ptr) → IsCounted lost s (p ∷ held) → IsCounted lost s' held

pub free-Drops :
    (fuel : ℕ) (s : Store) (p : Ptr) (k : ℕ) (c : Content)
    → at s p ≡ node (suc (suc k)) c
    → (s' : Store) × (free (suc fuel) p s ≡ done s') × Drops s s' p (suc k) c
free-Drops fuel s p k c e = (
  set s p (node (suc (suc k) - 1) c),
  free_more fuel p s (suc (suc k)) c e (omega arith),
  record {
    self = at-set_self s p _ (ap is_live e) ∙ ap (λ n. node n c) (less k);
    others = λ q ne. at-set_ne s p q _ ne;
    size = length-set s p _;
    counted = λ lost held acc. drop-IsCounted lost s p held acc (suc (suc k)) c e;
  },
)
  where
    less : (k : ℕ) → suc (suc k) - 1 ≡ suc k
    less k = omega arith

pub length_new : (s : Store) (c : Content) → length (s ++ node 1 c ∷ []) ≡ suc (length s)
length_new s c = omega (arith, length-append s (node 1 c ∷ []))

-- A new literal stands in the slot after `pre`, held by nothing else.
pub record Places (s s' : Store) (dis : Ptr) (ref : ℕ) (pre rest : List (Option Ptr)) (l : Lit)
    : Type 0 where
  pub parent : at s' dis ≡ node ref (disjunct (pre ++ some (length s) ∷ rest))
  pub child : at s' (length s) ≡ node 1 (literal l)
  pub others : (q : Ptr) → q < length s → dis ≢ q → at s' q ≡ at s q
  pub size : length s' ≡ suc (length s)
  pub counted : KeepsCounts s s'

pub place-Places :
    (s : Store) (dis : Ptr) (ref : ℕ) (pre rest : List (Option Ptr)) (l : Lit)
    → at s dis ≡ node ref (disjunct (pre ++ none ∷ rest))
    → (s' : Store) × (place dis (length pre) l s ≡ done s') × Places s s' dis ref pre rest l
unfolding place
place-Places s dis ref pre rest l e =
    let k = Connective.disjunction in
    let inside = at-lt s dis (ap is_live e) in
    let s₁ = s ++ node 1 (literal l) ∷ [] in
    let e₁ = at-append_lt s (node 1 (literal l) ∷ []) dis inside ∙ e in
    let new = at-append_self s (node 1 (literal l)) in
    let ne = lt→ne dis (length s) inside in
    (
      linked s₁ ref dis (length s) k pre rest (literal l) e₁ new ne,
      rw (set-linked s₁ ref dis (length s) k pre rest (literal l) e₁ new ne)
          (free-linked s₁ ref dis (length s) k pre rest (literal l) e₁ new ne),
      record {
        parent = linked_ret s₁ ref dis (length s) k pre rest (literal l) e₁ new ne;
        child =
            linked_others s₁ ref dis (length s) k pre rest (literal l) e₁ new ne (length s) ne
            ∙ new;
        others = λ q h a.
            linked_others s₁ ref dis (length s) k pre rest (literal l) e₁ new ne q a
            ∙ at-append_lt s (node 1 (literal l) ∷ []) q h;
        size =
            length-linked s₁ ref dis (length s) k pre rest (literal l) e₁ new ne
            ∙ length_new s (literal l);
        counted = λ lost held acc.
            linked-IsCounted s₁ ref dis (length s) k pre rest (literal l) e₁ new ne lost held
              (malloc-IsCounted lost s held acc (literal l) refl);
      },
    )
