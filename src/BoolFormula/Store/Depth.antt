-- ===== src/BoolFormula/Store/Depth.antt =====
-- The depth of a formula in a store, which is at most the number of its objects: no object is met again
-- below itself.
use dorder.Prelude.{
  ◌≤◌, ◌<◌, ◌≡◌, ◌≢◌, refl, sym, ap, subst, ◌∙◌, List, [], ◌∷◌, Option, none, some, arith, length,
  set,
}
use dorder.BoolFormula.{BoolFormula, Formulas, nil, cons}
use dorder.BoolFormula.Store.{Ptr, Content, literal, disjunct, conjunct, freed, Store}
use dorder.BoolFormula.Store.Count.{is_live, at-lt, live_count, live_count-set, live_count-le}
use dorder.BoolFormula.Store.Free.{at-set_ne}
use dorder.BoolFormula.Store.Reads.{View, view, view-at, content_of, Reads, AllRead, depth, depths}

clash :
    {A : Type 0} {c d : Content} {m : Option Content} → m ≡ some c → m ≡ some d → (c ≡ d → A) → A
clash {c = c} {d = d} e e' k = k (same (sym e ∙ e'))
  where
    same : some c ≡ some d → c ≡ d
    same z = cc

mutual
  unfolding Reads

  -- An object stands for one formula.
  Reads-IsUnique : (m : View) (p : Ptr) (f g : BoolFormula) → Reads m p f → Reads m p g → f ≡ g
  Reads-IsUnique m p (BoolFormula.literal l) (BoolFormula.literal k) r r' = clash r r' (λ e. cc)
  Reads-IsUnique m p (BoolFormula.literal l) (BoolFormula.disjunct gs) r (w, e, rs) =
      clash r e (λ z. cc)
  Reads-IsUnique m p (BoolFormula.literal l) (BoolFormula.conjunct gs) r (w, e, rs) =
      clash r e (λ z. cc)
  Reads-IsUnique m p (BoolFormula.disjunct fs) (BoolFormula.literal k) (v, e, rs) r =
      clash e r (λ z. cc)
  Reads-IsUnique m p (BoolFormula.conjunct fs) (BoolFormula.literal k) (v, e, rs) r =
      clash e r (λ z. cc)
  Reads-IsUnique m p (BoolFormula.disjunct fs) (BoolFormula.conjunct gs) (v, e, rs) (w, e', rs') =
      clash e e' (λ z. cc)
  Reads-IsUnique m p (BoolFormula.conjunct fs) (BoolFormula.disjunct gs) (v, e, rs) (w, e', rs') =
      clash e e' (λ z. cc)
  Reads-IsUnique m p (BoolFormula.disjunct fs) (BoolFormula.disjunct gs) (v, e, rs) (w, e', rs') =
      clash e e' (λ z. ap BoolFormula.disjunct (AllRead-IsUnique m v w fs gs (slots_of z) rs rs'))
    where
      slots_of : disjunct v ≡ disjunct w → v ≡ w
      slots_of z = cc
  Reads-IsUnique m p (BoolFormula.conjunct fs) (BoolFormula.conjunct gs) (v, e, rs) (w, e', rs') =
      clash e e' (λ z. ap BoolFormula.conjunct (AllRead-IsUnique m v w fs gs (slots_of z) rs rs'))
    where
      slots_of : conjunct v ≡ conjunct w → v ≡ w
      slots_of z = cc

  AllRead-IsUnique :
      (m : View) (v w : List (Option Ptr)) (fs gs : Formulas)
      → v ≡ w
      → AllRead m v fs
      → AllRead m w gs
      → fs ≡ gs
  AllRead-IsUnique m [] [] nil nil z rs rs' = refl
  AllRead-IsUnique m [] w (cons f fs) gs z rs rs' = absurd rs
  AllRead-IsUnique m (x ∷ v) w nil gs z rs rs' = absurd rs
  AllRead-IsUnique m (none ∷ v) w (cons f fs) gs z rs rs' = absurd rs
  AllRead-IsUnique m [] (y ∷ w) nil gs z rs rs' = cc
  AllRead-IsUnique m [] [] nil (cons g gs) z rs rs' = absurd rs'
  AllRead-IsUnique m (some p ∷ v) [] (cons f fs) gs z rs rs' = cc
  AllRead-IsUnique m (some p ∷ v) (none ∷ w) (cons f fs) gs z rs rs' = cc
  AllRead-IsUnique m (some p ∷ v) (some q ∷ w) (cons f fs) nil z rs rs' = absurd rs'
  AllRead-IsUnique m (some p ∷ v) (some q ∷ w) (cons f fs) (cons g gs) z rs rs' =
      let same : p ≡ q = cc in
      let rest : v ≡ w = cc in
      let here = Reads-IsUnique m p f g rs.0 (subst (λ r. Reads m r g) (sym same) rs'.0) in
      let there = AllRead-IsUnique m v w fs gs rest rs.1 rs'.1 in cc

-- What stands for formulas of a smaller depth is not the object `p`.
module _ (s : Store) (p : Ptr) (g : BoolFormula) (whole : Reads (view s) p g) where
  other : (q : Ptr) (f : BoolFormula) → Reads (view s) q f → depth f < depth g → p ≢ q
  other q f r less e =
      lt_irrefl
        (ap depth (Reads-IsUnique (view s) q f g r (subst (λ x. Reads (view s) x g) e whole)))
    where
      lt_irrefl : depth f ≡ depth g → ⊥
      lt_irrefl z = omega arith

  kept :
      (q : Ptr) (f : BoolFormula)
      → Reads (view s) q f
      → depth f < depth g
      → view (set s p freed) q ≡ view s q
  kept q f r less = ap content_of (at-set_ne s p q freed (other q f r less))

  mutual
    unfolding Reads depth

    still :
        (q : Ptr) (f : BoolFormula)
        → Reads (view s) q f
        → depth f < depth g
        → Reads (view (set s p freed)) q f
    still q (BoolFormula.literal l) r less = kept q (BoolFormula.literal l) r less ∙ r
    still q (BoolFormula.disjunct fs) (v, e, rs) less =
        (v, kept q (BoolFormula.disjunct fs) (v, e, rs) less ∙ e, all_still v fs rs (omega arith))
    still q (BoolFormula.conjunct fs) (v, e, rs) less =
        (v, kept q (BoolFormula.conjunct fs) (v, e, rs) less ∙ e, all_still v fs rs (omega arith))

    all_still :
        (v : List (Option Ptr)) (fs : Formulas)
        → AllRead (view s) v fs
        → depths fs < depth g
        → AllRead (view (set s p freed)) v fs
    all_still [] nil rs less = rs
    all_still (x ∷ v) nil rs less = rs
    all_still [] (cons f fs) rs less = rs
    all_still (none ∷ v) (cons f fs) rs less = rs
    all_still (some q ∷ v) (cons f fs) rs less =
        (still q f rs.0 (omega arith), all_still v fs rs.1 (omega arith))

fewer :
    (s : Store) (p : Ptr) (c : Content)
    → view s p ≡ some c
    → live_count (set s p freed) < live_count s
fewer s p c e =
    let (ref, at_p) = view-at s p c e in
    let live = ap is_live at_p in
    let counts = live_count-set s p freed (at-lt s p live) in omega (arith, rw live at counts)

mutual
  unfolding Reads depth

  depth-live : (s : Store) (p : Ptr) (f : BoolFormula) → Reads (view s) p f → depth f ≤ live_count s
  depth-live s p (BoolFormula.literal l) r = omega (arith, fewer s p (literal l) r)
  depth-live s p (BoolFormula.disjunct fs) (v, e, rs) =
      let rest = all_still s p (BoolFormula.disjunct fs) (v, e, rs) v fs rs (omega arith) in
      omega (arith, fewer s p (disjunct v) e, depths-live (set s p freed) v fs rest)
  depth-live s p (BoolFormula.conjunct fs) (v, e, rs) =
      let rest = all_still s p (BoolFormula.conjunct fs) (v, e, rs) v fs rs (omega arith) in
      omega (arith, fewer s p (conjunct v) e, depths-live (set s p freed) v fs rest)

  depths-live :
      (s : Store) (v : List (Option Ptr)) (fs : Formulas)
      → AllRead (view s) v fs
      → depths fs ≤ live_count s
  depths-live s v nil rs = omega arith
  depths-live s [] (cons f fs) rs = absurd rs
  depths-live s (none ∷ v) (cons f fs) rs = absurd rs
  depths-live s (some p ∷ v) (cons f fs) rs =
      omega (arith, depth-live s p f rs.0, depths-live s v fs rs.1)

-- So many nested calls as there are objects are enough for a formula.
pub depth-length : (s : Store) (p : Ptr) (f : BoolFormula) → Reads (view s) p f → depth f ≤ length s
depth-length s p f r = omega (arith, depth-live s p f r, live_count-le s)
