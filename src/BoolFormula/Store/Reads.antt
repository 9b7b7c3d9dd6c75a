-- ===== src/BoolFormula/Store/Reads.antt =====
-- What a pointer into the store of boolformula.c stands for, whatever the reference counts are and
-- whichever parts are shared.
use dorder.Prelude.{
  length, ℕ, suc, ◌≤◌, ◌<◌, ◌≡◌, ap, ◌∙◌, false, List, [], ◌∷◌, ◌++◌, Option, some, none, arith,
  ltb, lt→ltb, le→ltb, ltb→lt, if◌then◌else◌, max, Bool-cases, inl, inr,
}
use dorder.BoolFormula.{BoolFormula, Formulas, nil, cons, append}
use dorder.BoolFormula.Store.{Ptr, Content, literal, disjunct, conjunct, Cell, freed, node, Store}
use dorder.BoolFormula.Store.Count.{HoldsNew, at, is_live, at-lt}
use dorder.BoolFormula.Store.Placed.{
  Placed, leaf, disjunction, conjunction, Parts, end, part, root, roots, formula_of, formulas_of,
  IsIn, AllIn,
}

abbrev pub content_of : Cell → Option Content
content_of freed = none
content_of (node ref c) = some c

-- The contents of the objects, without the counts.
abbrev pub View : Type 0
View = Ptr → Option Content

abbrev pub view : Store → View
view s p = content_of (at s p)

-- Only the objects from a number on, or in front of it.
abbrev pub above : ℕ → View → View
above n m p = if ltb p n then none else m p

abbrev pub below : ℕ → View → View
below n m p = if ltb p n then m p else none

-- The object `p` stands for the formula.
unfoldable mutual
  pub Reads : View → Ptr → BoolFormula → Type 0
  Reads m p (BoolFormula.literal l) = m p ≡ some (literal l)
  Reads m p (BoolFormula.disjunct fs) =
      (v : List (Option Ptr)) × (m p ≡ some (disjunct v)) × AllRead m v fs
  Reads m p (BoolFormula.conjunct fs) =
      (v : List (Option Ptr)) × (m p ≡ some (conjunct v)) × AllRead m v fs

  pub AllRead : View → List (Option Ptr) → Formulas → Type 0
  AllRead m [] nil = Unit
  AllRead m (x ∷ v) nil = ⊥
  AllRead m [] (cons f fs) = ⊥
  AllRead m (none ∷ v) (cons f fs) = ⊥
  AllRead m (some p ∷ v) (cons f fs) = Reads m p f × AllRead m v fs

-- What is in one view is in the other.
abbrev pub Contains : View → View → Type 0
Contains m m' = (p : Ptr) (c : Content) → m p ≡ some c → m' p ≡ some c

mutual
  unfolding Reads

  pub Reads-Contains :
      (m m' : View) (p : Ptr) (f : BoolFormula) → Contains m m' → Reads m p f → Reads m' p f
  Reads-Contains m m' p (BoolFormula.literal l) h r = h p (literal l) r
  Reads-Contains m m' p (BoolFormula.disjunct fs) h (v, e, r) =
      (v, h p (disjunct v) e, AllRead-Contains m m' v fs h r)
  Reads-Contains m m' p (BoolFormula.conjunct fs) h (v, e, r) =
      (v, h p (conjunct v) e, AllRead-Contains m m' v fs h r)

  pub AllRead-Contains :
      (m m' : View) (v : List (Option Ptr)) (fs : Formulas)
      → Contains m m'
      → AllRead m v fs
      → AllRead m' v fs
  AllRead-Contains m m' [] nil h r = tt
  AllRead-Contains m m' (x ∷ v) nil h r = r
  AllRead-Contains m m' [] (cons f fs) h r = r
  AllRead-Contains m m' (none ∷ v) (cons f fs) h r = r
  AllRead-Contains m m' (some p ∷ v) (cons f fs) h r =
      (Reads-Contains m m' p f h r.0, AllRead-Contains m m' v fs h r.1)

pub AllRead-append :
    (m : View) (v w : List (Option Ptr)) (fs gs : Formulas)
    → AllRead m v fs
    → AllRead m w gs
    → AllRead m (v ++ w) (append fs gs)
unfolding Reads
AllRead-append m [] w nil gs r k = k
AllRead-append m (x ∷ v) w nil gs r k = absurd r
AllRead-append m [] w (cons f fs) gs r k = absurd r
AllRead-append m (none ∷ v) w (cons f fs) gs r k = absurd r
AllRead-append m (some p ∷ v) w (cons f fs) gs r k = (r.0, AllRead-append m v w fs gs r.1 k)

mutual
  unfolding Reads IsIn formula_of

  -- A formula in the store is read as its tree.
  pub IsIn-Reads : (s : Store) (t : Placed) → IsIn s t → Reads (view s) (root t) (formula_of t)
  IsIn-Reads s (leaf p ref l) h = ap content_of h
  IsIn-Reads s (disjunction p ref ts) h = (roots ts, ap content_of h.0, AllIn-AllRead s ts h.1)
  IsIn-Reads s (conjunction p ref ts) h = (roots ts, ap content_of h.0, AllIn-AllRead s ts h.1)

  AllIn-AllRead :
      (s : Store) (ts : Parts) → AllIn s ts → AllRead (view s) (roots ts) (formulas_of ts)
  AllIn-AllRead s end h = tt
  AllIn-AllRead s (part t ts) h = (IsIn-Reads s t h.0, AllIn-AllRead s ts h.1)

-- An object of a view, with its count.
pub view-at :
    (s : Store) (p : Ptr) (c : Content) → view s p ≡ some c → (ref : ℕ) × (at s p ≡ node ref c)
view-at s p c e = cases (at s p) e
  where
    cases : (d : Cell) → content_of d ≡ some c → (ref : ℕ) × (d ≡ node ref c)
    cases freed h = cc
    cases (node ref d) h = (ref, cc)

pub above-Contains :
    (n : ℕ) (s s' : Store)
    → ((p : Ptr) (c : Content) → n ≤ p → view s p ≡ some c → view s' p ≡ some c)
    → Contains (above n (view s)) (above n (view s'))
above-Contains n s s' h p c = elim (Bool-cases (ltb p n)) [
  | inl e ↦ rw e (λ q. cc)
  | inr e ↦ rw e (h p c (not_lt e))
]
  where
    not_lt : ltb p n ≡ false → n ≤ p
    not_lt e = ground arith

pub above-above : (n k : ℕ) (m : View) → k ≤ n → Contains (above n m) (above k m)
above-above n k m h p c = elim (Bool-cases (ltb p n)) [
  | inl e ↦ rw e (λ q. cc)
  | inr e ↦ rw (e, le→ltb p k (at_least e)) (λ q. q)
]
  where
    at_least : ltb p n ≡ false → k ≤ p
    at_least e = ground arith

pub below-Contains :
    (n : ℕ) (s s' : Store)
    → ((p : Ptr) → p < n → at s' p ≡ at s p)
    → Contains (below n (view s)) (below n (view s'))
below-Contains n s s' h p c = elim (Bool-cases (ltb p n)) [
  | inl e ↦ rw e (λ q. ap content_of (h p (ltb→lt p n e)) ∙ q)
  | inr e ↦ rw e (λ q. cc)
]

pub below-view :
    (n : ℕ) (m : View) (p : Ptr) (c : Content) → below n m p ≡ some c → (p < n) × (m p ≡ some c)
below-view n m p c = elim (Bool-cases (ltb p n)) [
  | inl e ↦ rw e (λ q. (ltb→lt p n e, q))
  | inr e ↦ rw e (λ q. cc)
]

pub above_new :
    (n : ℕ) (s : Store) (p : Ptr) (c : Content)
    → n ≤ p
    → view s p ≡ some c
    → above n (view s) p ≡ some c
above_new n s p c h e = rw (le→ltb p n h) e

pub view-lt : (s : Store) (p : Ptr) (c : Content) → view s p ≡ some c → p < length s
view-lt s p c e = let (ref, h) = view-at s p c e in at-lt s p (ap is_live h)

pub above-view : (n : ℕ) (m : View) → Contains (above n m) m
above-view n m p c = elim (Bool-cases (ltb p n)) [ inl e ↦ rw e (λ q. cc) | inr e ↦ rw e (λ q. q) ]

pub above-from :
    (n : ℕ) (m : View) (p : Ptr) (c : Content) → above n m p ≡ some c → (n ≤ p) × (m p ≡ some c)
above-from n m p c = elim (Bool-cases (ltb p n)) [
  | inl e ↦ rw e (λ q. cc)
  | inr e ↦ rw e (λ q. (not_lt e, q))
]
  where
    not_lt : ltb p n ≡ false → n ≤ p
    not_lt e = ground arith

-- All objects of a store have smaller numbers than its length.
pub view-below : (s : Store) → Contains (view s) (below (length s) (view s))
view-below s p c e = rw (lt→ltb p (length s) (view-lt s p c e)) e

-- The depth, which bounds that of the calls.
unfoldable mutual
  pub depth : BoolFormula → ℕ
  depth (BoolFormula.literal l) = 1
  depth (BoolFormula.disjunct fs) = suc (depths fs)
  depth (BoolFormula.conjunct fs) = suc (depths fs)

  pub depths : Formulas → ℕ
  depths nil = 0
  depths (cons f fs) = max (depth f) (depths fs)

-- The object after the last one of `s` stands for the formula in `s'`, with the count 1, and the objects
-- of `s` are what they were.
pub record NewFormula (s s' : Store) (f : BoolFormula) : Type 0 where
  pub there : Reads (view s') (length s) f
  pub top : Content
  pub single : at s' (length s) ≡ node 1 top
  pub old : (q : Ptr) → q < length s → at s' q ≡ at s q
  pub counted : HoldsNew s s'
