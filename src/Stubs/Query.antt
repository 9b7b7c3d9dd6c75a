-- ===== src/Stubs/Query.antt =====
-- An equivalence query of `learn_core` (external/cdnfcore/cdnf.c) through `is_equivalent` of cdnfp_stubs.c,
-- on the store of boolformula.c.
pub mod Counted
pub mod Concluded
use dorder.Prelude.{ℕ, suc, Bool, Option, none, some, Run, done, ◌>>=◌, length, if◌then◌else◌}
use dorder.BoolFormula.Store.{Ptr, Store, free}
use dorder.BoolFormula.Store.Copy.{copy}
use dorder.CdnfFormula.{Conjunction}
use dorder.CdnfFormula.Store.{to_boolformula}
use dorder.Stubs.Handles.{hand_over}

-- Up to the call of the closure: the formula of the conjecture, and the wrapper of its copy.
unfoldable pub offer : Conjunction → Store → Run (Ptr × Ptr × Store)
unfolding to_boolformula copy hand_over
offer conjecture s = do
  (b_conjecture, s₁) ← to_boolformula conjecture s
  (bool_f, s₂) ← copy (length s₁) b_conjecture s₁
  (f, s₃) ← hand_over bool_f s₂
  done (b_conjecture, f, s₃)

-- After the answer: the formula is returned, or given back.
unfoldable pub conclude : Bool → Ptr → Store → Run (Option Ptr × Store)
unfolding free
conclude is_equal b_conjecture s =
    if is_equal
    then done (some b_conjecture, s)
    else do s' ← free (suc (length s)) b_conjecture s; done (none, s')
