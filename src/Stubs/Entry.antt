-- ===== src/Stubs/Entry.antt =====
-- The entry points of cdnfp_stubs.c on the store: the formula that `learn` returns is wrapped.
pub mod Wrapped
use dorder.Prelude.{ℕ, Option, none, some, List, ◌∷◌, Run, done, checked, ◌>>=◌}
use dorder.Bits.{Bits}
use dorder.BoolFormula.Store.{Ptr}
use dorder.Learn.Teacher.{Teacher, Mode, plain, plus, plus_plus, plus3}
use dorder.Stubs.Handles.{val_boolformula}
use dorder.Stubs.Session.{Session}
use dorder.Stubs.Learner.{learn}

-- A wrapper for OCaml.
unfoldable pub wrap : Ptr → Session → Run (Ptr × Session)
unfolding val_boolformula
wrap b s = do
  (v, store) ← val_boolformula b s.store
  done (v, record { store = store; held = v ∷ s.held })

module _ (teacher : Teacher) (ask : ℕ → ℕ → Ptr → Session → Option Bits × Session)
    (tries fuel num_vars : ℕ) (s : Session) where
  -- No formula is `None`.
  unfoldable pub ocaml_cdnf : Run (Option Ptr × Session)
  unfolding learn wrap
  ocaml_cdnf = do
    (r, t) ← learn teacher plain ask tries fuel num_vars s
    elim r [ none ↦ done (none, t) | some b ↦ do (v, t') ← wrap b t; done (some v, t') ]

  -- assert (bool_f != NULL)
  unfoldable pub ocaml_cdnfx : Run (Ptr × Session)
  unfolding learn wrap
  ocaml_cdnfx = do (r, t) ← learn teacher plus ask tries fuel num_vars s; b ← checked r; wrap b t

  unfoldable pub ocaml_cdnfxx : Run (Ptr × Session)
  unfolding learn wrap
  ocaml_cdnfxx = do
    (r, t) ← learn teacher plus_plus ask tries fuel num_vars s
    b ← checked r
    wrap b t

  unfoldable pub ocaml_cdnfxxx : Run (Ptr × Session)
  unfolding learn wrap
  ocaml_cdnfxxx = do (r, t) ← learn teacher plus3 ask tries fuel num_vars s; b ← checked r; wrap b t
