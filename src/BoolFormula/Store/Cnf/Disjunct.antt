-- ===== src/BoolFormula/Store/Cnf/Disjunct.antt =====
-- The loop of `add_clauses_to_boolformula` over a disjunction on a store.
use dorder.Prelude.{
  ℕ, suc, ◌≤◌, ◌<◌, ◌≡◌, ◌≢◌, refl, sym, ap, subst, ◌∙◌, List, [], ◌∷◌, ◌++◌, Option, none, some,
  done, arith, length, length-append, replicate,
}
use mathlib.Core.List.{append-nil, append_assoc}
use dorder.BoolFormula.{Lit, BoolFormula, Formulas, nil, cons, append}
use dorder.BoolFormula.Cnf as Tree
use dorder.BoolFormula.Store.{Ptr, Content, literal, disjunct, conjunct, node, Store}
use dorder.BoolFormula.Store.Count.{at, is_live, at-lt}
use dorder.BoolFormula.Store.Reads.{
  view, content_of, below, Reads, AllRead-Contains, AllRead-append, AllRead, below-Contains,
  above-above, above-Contains, above_new, view-lt, depth, depths,
}
use dorder.BoolFormula.Store.Copy.Made.{lt→ne}
use dorder.BoolFormula.Store.Copy.Slots.{read_slot-done}
use dorder.BoolFormula.Store.Cnf.{add_clauses, disjunct_literals, place_part}
use dorder.BoolFormula.Store.Cnf.Made.{AllClausify, PartOf, PlacesPart, Literals}
use dorder.BoolFormula.Store.Cnf.Parts.{place_part-PlacesPart}

disjunct_loop-cons :
    (f : BoolFormula) (fs : Formulas) (next next₁ next₂ : ℕ) (l : Lit) (cs lits cs' : Formulas)
    → PartOf f next l cs next₁
    → Tree.disjunct_loop fs next₁ ≡ done (lits, cs', next₂)
    → Tree.disjunct_loop (cons f fs) next
      ≡ done (cons (BoolFormula.literal l) lits, append cs cs', next₂)
unfolding Tree.disjunct_loop
disjunct_loop-cons (BoolFormula.literal k) fs next next₁ next₂ l cs lits cs' (a, b, c) e =
    rw (a, b, ← c, e) refl
disjunct_loop-cons (BoolFormula.disjunct gs) fs next next₁ next₂ l cs lits cs' (a, b) e =
    rw (a, b, e) refl
disjunct_loop-cons (BoolFormula.conjunct gs) fs next next₁ next₂ l cs lits cs' (a, b) e =
    rw (a, b, e) refl

-- A step of the loop in front of the others.
join :
    (s s₁ s' : Store) (dis : Ptr) (k : ℕ) (pre rest : List (Option Ptr)) (ret : Ptr) (ref : ℕ)
    (v : List (Option Ptr)) (l : Lit) (cs lits cs' : Formulas)
    → ret < length s
    → dis < length s
    → (one : PlacesPart s s₁ dis k pre rest ret ref v l cs)
    → Literals s₁ s' dis k (pre ++ some one.slot ∷ []) ret ref (v ++ one.clauses) lits cs'
    → Literals s s' dis k pre ret ref v (cons (BoolFormula.literal l) lits) (append cs cs')
unfolding Reads
join s s₁ s' dis k pre rest ret ref v l cs lits cs' room room' one two = record {
  written = some one.slot ∷ two.written;
  parent =
      two.parent
      ∙ ap (λ u. node k (disjunct u)) (append_assoc pre (some one.slot ∷ []) two.written);
  literals = (
    above_new (length s) s' one.slot (literal l) one.fresh
        (keep one.slot (literal l) one.fresh one.there),
    AllRead-Contains _ _ two.written lits (above-above (length s₁) (length s) (view s') one.grows)
        two.literals,
  );
  clauses = one.clauses ++ two.clauses;
  result = two.result ∙ ap (λ u. node ref (conjunct u)) (append_assoc v one.clauses two.clauses);
  read =
      AllRead-append _ one.clauses two.clauses cs cs'
        (AllRead-Contains _ _ one.clauses cs (above-Contains (length s) s₁ s' keep) one.read)
        (AllRead-Contains _ _ two.clauses cs'
          (above-above (length s₁) (length s) (view s') one.grows) two.read);
  old = λ q h a b. two.old q (omega (arith, one.grows)) a b ∙ one.old q h a b;
  grows = omega (arith, one.grows, two.grows);
  counted = λ lost held acc. two.counted lost held (one.counted lost held acc);
}
  where
    keep : (p : Ptr) (c : Content) → length s ≤ p → view s₁ p ≡ some c → view s' p ≡ some c
    keep p c h e =
        ap content_of
          (two.old p (view-lt s₁ p c e) (lt→ne ret p (omega arith)) (lt→ne dis p (omega arith)))
        ∙ e

module _ (fuel : ℕ) (f dis ret : Ptr) (lo ref k fr : ℕ) (all : List (Option Ptr)) (inside : f < lo)
    (low : lo ≤ ret) (low' : lo ≤ dis) (ne : ret ≢ dis) where
  -- What the loop starts from.
  pub record Ready (s : Store) (pre₀ pre w : List (Option Ptr)) (i next : ℕ) (v : List (Option Ptr))
      (gs : Formulas) : Type 0 where
    pub source : at s f ≡ node fr (disjunct all)
    pub split : all ≡ pre₀ ++ w
    pub index : length pre₀ ≡ i
    pub index' : length pre ≡ suc i
    pub target : at s dis ≡ node k (disjunct (pre ++ replicate (length w) none))
    pub result : at s ret ≡ node ref (conjunct v)
    pub read : AllRead (below lo (view s)) w gs
    pub positive : 0 < next

  module _ (s s₁ : Store) (pre₀ pre w : List (Option Ptr)) (i next next₁ : ℕ)
      (v : List (Option Ptr)) (p : Ptr) (g : BoolFormula) (gs : Formulas)
      (r : Ready s pre₀ pre (some p ∷ w) i next v (cons g gs)) (l : Lit) (cs : Formulas)
      (one : PlacesPart s s₁ dis k pre (replicate (length w) none) ret ref v l cs) where
    room : ret < length s
    room = at-lt s ret (ap is_live r.result)

    room' : dis < length s
    room' = at-lt s dis (ap is_live r.target)

    low_old : (q : Ptr) → q < lo → at s₁ q ≡ at s q
    low_old q h =
        one.old q (omega (arith, room)) (λ e. lt→ne q ret (omega arith) (sym e))
          (λ e. lt→ne q dis (omega arith) (sym e))

    next-Ready :
        next ≤ next₁
        → Ready s₁
            (pre₀ ++ some p ∷ [])
            (pre ++ some one.slot ∷ [])
            w
            (suc i)
            next₁
            (v ++ one.clauses)
            gs
    unfolding Reads
    next-Ready le = record {
      source = low_old f inside ∙ r.source;
      split = r.split ∙ sym (append_assoc pre₀ (some p ∷ []) w);
      index = omega (arith, r.index, length-append pre₀ (some p ∷ []));
      index' = omega (arith, r.index', length-append pre (some one.slot ∷ []));
      target =
          one.parent
          ∙ ap (λ u. node k (disjunct u))
              (sym (append_assoc pre (some one.slot ∷ []) (replicate (length w) none)));
      result = one.result;
      read = AllRead-Contains _ _ w gs (below-Contains lo s s₁ low_old) r.read.1;
      positive = omega (arith, r.positive);
    }

  pub disjunct_literals-Literals :
      (gs : Formulas) (w pre₀ pre : List (Option Ptr)) (i next : ℕ) (v : List (Option Ptr))
      (s : Store)
      → AllClausify fuel gs
      → Ready s pre₀ pre w i next v gs
      → depths gs ≤ fuel
      → (s' : Store) × (next' : ℕ) × (lits : Formulas) × (cs : Formulas) × (disjunct_literals
            (add_clauses fuel ret)
            dis
            f
            i
            (length w)
            next
            s
          ≡ done (next', s'))
        × (Tree.disjunct_loop gs next ≡ done (lits, cs, next'))
        × (next ≤ next')
        × Literals s s' dis k pre ret ref v lits cs
  unfolding disjunct_literals Reads depth Tree.disjunct_loop
  disjunct_literals-Literals nil [] pre₀ pre i next v s ns r b = (
    s,
    next,
    nil,
    nil,
    refl,
    refl,
    omega arith,
    record {
      written = [];
      parent = r.target;
      literals = tt;
      clauses = [];
      result = r.result ∙ ap (λ u. node ref (conjunct u)) (sym (append-nil v));
      read = tt;
      old = λ q h a z. refl;
      grows = omega arith;
      counted = λ lost held acc. acc;
    },
  )
  disjunct_literals-Literals nil (x ∷ w) pre₀ pre i next v s ns r b = absurd r.read
  disjunct_literals-Literals (cons g gs) [] pre₀ pre i next v s ns r b = absurd r.read
  disjunct_literals-Literals (cons g gs) (none ∷ w) pre₀ pre i next v s ns r b = absurd r.read
  disjunct_literals-Literals (cons g gs) (some p ∷ w) pre₀ pre i next v s ns r b =
      let blanks = replicate (length w) none in
      let (s₁, next₁, l, cs, r₁, t, le, one) =
        place_part-PlacesPart s dis k pre blanks ret ref v lo low low' ne r.target r.result fuel
          next r.positive p g ns.0 r.read.0 (omega arith) in
      let (s', next', lits, cs', r₂, t', le', two) =
        disjunct_literals-Literals gs w (pre₀ ++ some p ∷ []) (pre ++ some one.slot ∷ []) (suc i)
          next₁ (v ++ one.clauses) s₁ ns.1
          (next-Ready s s₁ pre₀ pre w i next next₁ v p g gs r l cs one le) (omega arith) in
      (
        s',
        next',
        cons (BoolFormula.literal l) lits,
        append cs cs',
        rw (read_slot-done s f i fr (disjunct all) pre₀ w p r.source r.split r.index) (
            rw
              (subst (λ j. place_part (add_clauses fuel ret) dis j p next s ≡ done (next₁, s₁))
                r.index' r₁)
              r₂),
        disjunct_loop-cons g gs next next₁ next' l cs lits cs' t t',
        omega arith,
        join s s₁ s' dis k pre blanks ret ref v l cs lits cs' (at-lt s ret (ap is_live r.result))
            (at-lt s dis (ap is_live r.target)) one two,
      )
