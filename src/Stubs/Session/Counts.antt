-- ===== src/Stubs/Session/Counts.antt =====
-- What the bindings of cdnfp_stubs.c that make and change formulas do to the reference counts.
use dorder.Prelude.{
  ℕ, zero, suc, ◌+◌, ◌<◌, ◌≡◌, refl, sym, ap, subst, true, List, [], ◌∷◌, Option, none, some, Run,
  done, failed, ◌>>=◌, assert, arith, ltb, ltb→lt, length, get_or, set, inl, inr, Bool-cases,
  checked, get_elem?, ◌>>◌,
}
use dorder.BoolFormula.Store.{
  Ptr, Content, literal, disjunct, conjunct, freed, node, Store, slots, malloc, append_slot,
  write_slot,
}
use dorder.BoolFormula.Store.Count.{
  IsCounted, in_refs-set, pointers, count, is_live, cell_count, in_refs, at, count-append,
  pointers-append, at-lt,
}
use dorder.BoolFormula.Store.Calls.{count_self}
use dorder.BoolFormula.Store.Changes.{
  live_of_ref, malloc-IsCounted, forget-IsCounted, retain-IsCounted,
}
use dorder.Stubs.Handles.{val_boolformula}
use dorder.Stubs.Session.{Session, IsHeld}

-- What the writes to a vector add to it and take from it.
pub append_slot-count :
    (c c' : Content) (g : Ptr)
    → append_slot c g ≡ done c'
    → (p : Ptr)
    → count p (pointers (slots c')) + count p [] ≡ count p (pointers (slots c)) + count p (g ∷ [])
append_slot-count (literal l) c' g e p = cc
append_slot-count (disjunct v) c' g e p =
    subst (λ d. count p (pointers (slots d)) + 0 ≡ count p (pointers v) + count p (g ∷ []))
      (same _ c' e)
      (omega (
        arith,
        ap (count p) (pointers-append v (some g ∷ [])),
        count-append p (pointers v) (g ∷ []),
      ))
  where
    same : (a b : Content) → done a ≡ done b → a ≡ b
    same a b q = cc
append_slot-count (conjunct v) c' g e p =
    subst (λ d. count p (pointers (slots d)) + 0 ≡ count p (pointers v) + count p (g ∷ []))
      (same _ c' e)
      (omega (
        arith,
        ap (count p) (pointers-append v (some g ∷ [])),
        count-append p (pointers v) (g ∷ []),
      ))
  where
    same : (a b : Content) → done a ≡ done b → a ≡ b
    same a b q = cc

set-count :
    (v : List (Option Ptr)) (i : ℕ) (g p : Ptr)
    → i < length v
    → count p (pointers (set v i (some g))) + count p (pointers (get_or v i none ∷ []))
      ≡ count p (pointers v) + count p (g ∷ [])
set-count [] i g p h = absurd (omega arith)
set-count (none ∷ v) zero g p h = omega arith
set-count (some q ∷ v) zero g p h = omega arith
set-count (none ∷ v) (suc i) g p h = set-count v i g p (omega arith)
set-count (some q ∷ v) (suc i) g p h = omega (arith, set-count v i g p (omega arith))

-- A write that was in range.
set-done :
    (k : List (Option Ptr) → Content) (v : List (Option Ptr)) (i : ℕ) (g : Ptr) (c' : Content)
    → (assert (ltb i (length v)) >> done (k (set v i (some g)))) ≡ done c'
    → (i < length v) × (k (set v i (some g)) ≡ c')
set-done k v i g c' e = elim (Bool-cases (ltb i (length v))) [
  | inl h ↦ (ltb→lt i (length v) h, same _ c' (rw h at e))
  | inr h ↦ absurd (none_of (rw h at e))
]
  where
    same : (a b : Content) → done a ≡ done b → a ≡ b
    same a b q = cc

    none_of : failed ≡ done c' → ⊥
    none_of q = cc

pub write_slot-count :
    (c c' : Content) (i : ℕ) (g : Ptr)
    → write_slot c i g ≡ done c'
    → (p : Ptr)
    → count p (pointers (slots c')) + count p (pointers (get_or (slots c) i none ∷ []))
      ≡ count p (pointers (slots c)) + count p (g ∷ [])
write_slot-count (literal l) c' i g e p = cc
write_slot-count (disjunct v) c' i g e p =
    let (h, r) = set-done disjunct v i g c' e in
    subst
      (λ d.
        count p (pointers (slots d)) + count p (pointers (get_or v i none ∷ []))
        ≡ count p (pointers v) + count p (g ∷ []))
      r (set-count v i g p h)
write_slot-count (conjunct v) c' i g e p =
    let (h, r) = set-done conjunct v i g c' e in
    subst
      (λ d.
        count p (pointers (slots d)) + count p (pointers (get_or v i none ∷ []))
        ≡ count p (pointers v) + count p (g ∷ []))
      r (set-count v i g p h)

pub same_pair :
    {p q : Ptr} {s t : Store}
    → ◌≡◌ {A = Run (Ptr × Store)} (done (p, s)) (done (q, t))
    → (p ≡ q) × (s ≡ t)
same_pair e = (cc, cc)

module _ (lost : Ptr → ℕ) where
  pub held-live :
      (s : Session) (p : Ptr)
      → IsCounted lost s.store s.held
      → IsHeld s p
      → is_live (at s.store p) ≡ true
  held-live s p acc h = live_of_ref s.store p (omega (arith, acc p))

  -- The wrapper of a live object.
  pub val-IsCounted :
      (s : Store) (held : List Ptr) (f p : Ptr) (t : Store)
      → IsCounted lost s held
      → is_live (at s f) ≡ true
      → val_boolformula f s ≡ done (p, t)
      → IsCounted lost t (p ∷ held) × (f ≡ p)
  unfolding val_boolformula
  val-IsCounted s held f p t acc live e =
      let (t', r, acc', _, _) = retain-IsCounted lost s held acc f live in
      let (a, b) = same_pair (rw r at e) in
      (
        subst (λ q. IsCounted lost t (q ∷ held)) a
            (subst (λ u. IsCounted lost u (f ∷ held)) b acc'),
        a,
      )

  -- A new object that its maker holds, and that is wrapped: the reference of the maker is lost.
  pub wrap-IsBalanced :
      (s : Store) (held : List Ptr) (g p : Ptr) (t : Session)
      → IsCounted lost s (g ∷ held)
      → val_boolformula g s ≡ done (p, t.store)
      → t.held ≡ p ∷ held
      → IsCounted (λ q. lost q + count q (p ∷ [])) t.store t.held
  wrap-IsBalanced s held g p t acc e h =
      let live = live_of_ref s g (omega (arith, acc g, count_self g held)) in
      let (acc', a) = val-IsCounted s (g ∷ held) g p t.store acc live e in
      subst (λ l. IsCounted (λ q. lost q + count q (p ∷ [])) t.store l) (sym h)
        (forget-IsCounted lost t.store (p ∷ g ∷ held) acc' p (p ∷ held) (λ q. rw a refl))

  -- The object is one of the constructors'.
  pub create-IsBalanced :
      (s : Session) (c : Content) (p : Ptr) (t : Session)
      → IsCounted lost s.store s.held
      → pointers (slots c) ≡ []
      → val_boolformula (length s.store) (malloc c s.store).1 ≡ done (p, t.store)
      → t.held ≡ p ∷ s.held
      → IsCounted (λ q. lost q + count q (p ∷ [])) t.store t.held
  create-IsBalanced s c p t acc empty e h =
      wrap-IsBalanced (malloc c s.store).1 s.held (length s.store) p t
        (malloc-IsCounted lost s.store s.held acc c empty) e h

-- A slot that is read holds the pointer that the read returns.
pub slot-count :
    (v : List (Option Ptr)) (i : ℕ) (g : Ptr)
    → (checked (get_elem? v i) >>= checked) ≡ done g
    → 0 < count g (pointers v)
slot-count [] i g e = cc
slot-count (none ∷ v) zero g e = cc
slot-count (some q ∷ v) zero g e =
    subst (λ p. 0 < count p (q ∷ pointers v)) (same q g e)
      (omega (arith, count_self q (pointers v)))
  where
    same : (a b : Ptr) → ◌≡◌ {A = Run Ptr} (done a) (done b) → a ≡ b
    same a b r = cc
slot-count (none ∷ v) (suc i) g e = slot-count v i g e
slot-count (some q ∷ v) (suc i) g e = omega (arith, slot-count v i g e)

-- A pointer in a slot of an object is counted.
pub in_refs_pos :
    (s : Store) (f g : Ptr) {ref : ℕ} {c : Content}
    → at s f ≡ node ref c
    → 0 < count g (pointers (slots c))
    → 0 < in_refs g s
in_refs_pos s f g e h =
    omega (arith, in_refs-set g s f freed (at-lt s f (ap is_live e)), ap (cell_count g) e)
