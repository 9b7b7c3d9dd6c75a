-- ===== src/BoolFormula/Store/Counted.antt =====
-- The reference counts after a pointer is written to an empty slot, or behind a vector.
use dorder.Prelude.{
  ℕ, ◌+◌, ◌≡◌, ◌≢◌, refl, sym, ap, subst, ◌∙◌, List, [], ◌∷◌, ◌++◌, Option, none, some, done, arith,
  set,
}
use dorder.BoolFormula.Store.{Ptr, Content, node, Store, slots, retain}
use dorder.BoolFormula.Store.Count.{
  IsCounted, KeepsCounts, pointers, count, is_live, at, count-append, pointers-append,
}
use dorder.BoolFormula.Store.Free.{load-done, at-set_ne}
use dorder.BoolFormula.Store.Changes.{store-IsCounted}

-- An empty slot that is filled.
pub fill-count :
    (pre rest : List (Option Ptr)) (g p : Ptr)
    → count p (pointers (pre ++ some g ∷ rest))
      ≡ count p (pointers (pre ++ none ∷ rest)) + count p (g ∷ [])
fill-count pre rest g p = omega (
  arith,
  ap (count p) (pointers-append pre (some g ∷ rest)),
  ap (count p) (pointers-append pre (none ∷ rest)),
  count-append p (pointers pre) (g ∷ pointers rest),
  count-append p (pointers pre) (pointers rest),
)

-- A new slot.
pub add-count :
    (v : List (Option Ptr)) (g p : Ptr)
    → count p (pointers (v ++ some g ∷ [])) ≡ count p (pointers v) + count p (g ∷ [])
add-count v g p =
    omega
      (arith, ap (count p) (pointers-append v (some g ∷ [])), count-append p (pointers v) (g ∷ []))

-- The two writes when `f` gets a slot for `g`.
pub link-KeepsCounts :
    (s : Store) (f g : Ptr) (ref k : ℕ) (c c' d : Content)
    → at s f ≡ node ref c
    → at s g ≡ node k d
    → f ≢ g
    → ((p : Ptr) → count p (pointers (slots c')) ≡ count p (pointers (slots c)) + count p (g ∷ []))
    → KeepsCounts s (set (set s f (node ref c')) g (node (k + 1) d))
unfolding retain
link-KeepsCounts s f g ref k c c' d at_f at_g ne step lost held acc =
    let (s', r, acc') =
      store-IsCounted lost s held acc f g ref c c' [] at_f (ap is_live at_g)
        (λ p. omega (arith, step p)) in
    subst (λ u. IsCounted lost u held) (same (sym r ∙ run)) (λ p. omega (arith, acc' p))
  where
    run : retain g (set s f (node ref c')) ≡ done (set (set s f (node ref c')) g (node (k + 1) d))
    run = rw (load-done (set s f (node ref c')) g (at-set_ne s f g (node ref c') ne ∙ at_g)) refl

    same : {t u : Store} → done t ≡ done u → t ≡ u
    same e = cc
