-- ===== src/Stubs/Entry/Wrapped.antt =====
-- What the entry points return, next to the learner on trees.
use dorder.Prelude.{
  ℕ, ◌+◌, ◌≡◌, refl, sym, ap, subst, ◌∙◌, Option, none, some, [], ◌∷◌, ◌++◌, done, arith, set,
}
use native.Mathlib.Decide.{ℕ_discrete}
use dorder.Bits.{Bits}
use dorder.BoolFormula.{BoolFormula}
use dorder.BoolFormula.Store.{Ptr, node, retain}
use dorder.BoolFormula.Store.Count.{IsCounted, count, at}
use dorder.BoolFormula.Store.Free.{load-done, at-set_self, at-set_ne}
use dorder.BoolFormula.Store.Calls.{count_self}
use dorder.BoolFormula.Store.Changes.{live_of_ref, node_of}
use dorder.BoolFormula.Store.Reads.{view, content_of, Reads, Reads-Contains, Contains}
use dorder.Learn.Teacher.{Teacher, Mode, plain, plus, plus_plus, plus3}
use dorder.Learn.Core as Tree
use dorder.Stubs.Handles.{val_boolformula}
use dorder.Stubs.Session.{Session}
use dorder.Stubs.Session.Counts.{wrap-IsBalanced}
use dorder.Stubs.Query.Concluded.{returned}
use dorder.Stubs.Learner.{learn}
use dorder.Stubs.Learner.Behaves.{Behaves, StandsFor, IsSound}
use dorder.Stubs.Learner.Refines.{learn-StandsFor}
use dorder.Stubs.Entry.{wrap, ocaml_cdnf, ocaml_cdnfx, ocaml_cdnfxx, ocaml_cdnfxxx}

-- A wrapper that stands for the formula; with `p` once more among the lost references the counts are
-- right.
record Gives (Loss : (Ptr → ℕ) → Type 0) (g : BoolFormula) (p : Ptr) (t : Session) : Type 0 where
  there : Reads (view t.store) p g
  lost : Ptr → ℕ
  allowed : Loss lost
  counted : IsCounted (λ q. lost q + count q (p ∷ [])) t.store t.held

wrap-Gives :
    (Loss : (Ptr → ℕ) → Type 0) (g : BoolFormula) (b : Ptr) (t : Session)
    → Reads (view t.store) b g
    → IsSound Loss t.store (b ∷ t.held)
    → (t' : Session) × (wrap b t ≡ done (b, t')) × Gives Loss g b t'
unfolding wrap val_boolformula retain
wrap-Gives Loss g b t reads w =
    let live = live_of_ref t.store b (omega (arith, w.counted b, count_self b t.held)) in
    let (ref, c, e) = node_of (at t.store b) live in
    let store = set t.store b (node (ref + 1) c) in
    let self = at-set_self t.store b (node (ref + 1) c) live in
    let same : Contains (view t.store) (view store) = λ p d z. elim (ℕ_discrete b p) [
      | yes y ↦
          subst (λ q. view t.store q ≡ some d → view store q ≡ some d) y
            (λ x. ap content_of self ∙ (sym (ap content_of e) ∙ x)) z
      | no y ↦ ap content_of (at-set_ne t.store b p (node (ref + 1) c) y) ∙ z
    ] in
    let t' : Session = record { store = store; held = b ∷ t.held } in
    (
      t',
      rw (load-done t.store b e) refl,
      record {
        there = Reads-Contains _ _ b g same reads;
        lost = w.lost;
        allowed = w.allowed;
        counted =
            wrap-IsBalanced w.lost t.store t.held b b t' w.counted (rw (load-done t.store b e) refl)
              refl;
      },
    )

module _ (Loss : (Ptr → ℕ) → Type 0) (teacher : Teacher)
    (ask : ℕ → ℕ → Ptr → Session → Option Bits × Session) (h : Behaves Loss teacher ask)
    (tries fuel n : ℕ) (s : Session) (g : BoolFormula) (w : IsSound Loss s.store s.held) where
  learn-Gives :
      (mode : Mode)
      → Tree.learn teacher mode tries fuel n ≡ done (some g)
      → (p : Ptr) × (t : Session) × (t' : Session) × (learn teacher mode ask tries fuel n s
          ≡ done (some p, t))
        × (wrap p t ≡ done (p, t'))
        × Gives Loss g p t'
  learn-Gives mode e = wrapped (learn-StandsFor Loss teacher mode ask h tries fuel n s (some g) w e)
    where
      wrapped :
          (r : Option Ptr) × (t : Session) × (learn teacher mode ask tries fuel n s ≡ done (r, t))
            × StandsFor (some g) r t.store
            × IsSound Loss t.store (returned r ++ t.held)
          → (p : Ptr) × (t : Session) × (t' : Session) × (learn teacher mode ask tries fuel n s
              ≡ done (some p, t))
            × (wrap p t ≡ done (p, t'))
            × Gives Loss g p t'
      wrapped (none, t, run, stands, sound) = absurd stands
      wrapped (some p, t, run, stands, sound) =
          let (t', r, gives) = wrap-Gives Loss g p t stands sound in (p, t, t', run, r, gives)

  -- If the learner on trees returns a formula in the mode of an entry point, and the closure behaves as it
  -- should, the entry point returns a wrapper that stands for this formula. The reference of the learner
  -- is lost: the counts are right when that of the wrapper is counted once more.
  entry_points-Gives :
      ((Tree.learn teacher plain tries fuel n ≡ done (some g))
        → (p : Ptr) × (t : Session) × (ocaml_cdnf teacher ask tries fuel n s ≡ done (some p, t))
          × Gives Loss g p t)
      × ((Tree.learn teacher plus tries fuel n ≡ done (some g))
          → (p : Ptr) × (t : Session) × (ocaml_cdnfx teacher ask tries fuel n s ≡ done (p, t))
            × Gives Loss g p t)
      × ((Tree.learn teacher plus_plus tries fuel n ≡ done (some g))
          → (p : Ptr) × (t : Session) × (ocaml_cdnfxx teacher ask tries fuel n s ≡ done (p, t))
            × Gives Loss g p t)
      × ((Tree.learn teacher plus3 tries fuel n ≡ done (some g))
          → (p : Ptr) × (t : Session) × (ocaml_cdnfxxx teacher ask tries fuel n s ≡ done (p, t))
            × Gives Loss g p t)
  unfolding ocaml_cdnf ocaml_cdnfx ocaml_cdnfxx ocaml_cdnfxxx
  entry_points-Gives = (
    (λ e.
        let (p, t, t', run, r, gives) = learn-Gives plain e in (p, t', rw run (rw r refl), gives)),
    (λ e. let (p, t, t', run, r, gives) = learn-Gives plus e in (p, t', rw run r, gives)),
    (λ e. let (p, t, t', run, r, gives) = learn-Gives plus_plus e in (p, t', rw run r, gives)),
    (λ e. let (p, t, t', run, r, gives) = learn-Gives plus3 e in (p, t', rw run r, gives)),
  )
