-- ===== src/Learn/Teacher.antt =====
-- external/cdnfcore/query.h and the modes of cdnf.h: what the learner is given by its caller.
use dorder.Prelude.{ℕ, Bool, true, false, Option}
use dorder.Bits.{Bits}
use dorder.BoolFormula.{BoolFormula}

-- The three callbacks. Membership answers depend on the assignment alone. An equivalence query
-- has its number within the run of `learn_core` as first argument, so that the answers to one
-- conjecture may differ from query to query; `none` is `is_equal`.
pub record Teacher : Type 0 where
  pub membership : Bits → Bool
  pub comembership : Bits → Bool
  pub equivalence : ℕ → ℕ → BoolFormula → Option Bits

-- CDNF, CDNF_Plus, CDNF_PlusPlus, CDNF_Plus3
pub data Mode : Type 0 where
  plain plus plus_plus plus3 : Mode

abbrev pub is_plus : Mode → Bool
is_plus plus = true
is_plus _ = false

abbrev pub is_plus_plus : Mode → Bool
is_plus_plus plus_plus = true
is_plus_plus _ = false

abbrev pub is_plus3 : Mode → Bool
is_plus3 plus3 = true
is_plus3 _ = false
