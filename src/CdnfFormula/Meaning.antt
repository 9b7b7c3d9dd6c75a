-- ===== src/CdnfFormula/Meaning.antt =====
-- What the formulas of cdnfformula.c mean: their evaluation on a bit vector, and their translation
-- to formulas of boolformula.c.
use dorder.Prelude.{
  ℕ, zero, suc, pos, negsuc, abs, ◌<◌, ◌≡◌, refl, ap, Bool, true, false, ◌&&◌, ◌||◌, [], ◌∷◌, ◌++◌,
  done, All, arith, length, lt→ltb,
}
use dorder.Bits.{Bits, value_of}
use dorder.Bits.Laws.{get-done}
use dorder.BoolFormula.{Lit}
use dorder.BoolFormula.Meaning.{Assignment, eval_lit, eval}
use dorder.CdnfFormula.{
  Monomial, Disjunction, Conjunction, eval_monomial, eval_m_dnf, monomial_to_boolformula,
  dnf_to_boolformula, to_boolformula,
}

abbrev pub holds_monomial : Assignment → Monomial → Bool
holds_monomial ρ [] = true
holds_monomial ρ (l ∷ m) = eval_lit ρ l && holds_monomial ρ m

abbrev pub holds_disjunction : Assignment → Disjunction → Bool
holds_disjunction ρ [] = false
holds_disjunction ρ (m ∷ ms) = holds_monomial ρ m || holds_disjunction ρ ms

abbrev pub holds_conjunction : Assignment → Conjunction → Bool
holds_conjunction ρ [] = true
holds_conjunction ρ (d ∷ ds) = holds_disjunction ρ d && holds_conjunction ρ ds

-- The variable of a literal is a bit of a vector of `n` bits, and not bit 0.
abbrev pub InRange : ℕ → Lit → Type 0
InRange n l = (0 < abs l) × (abs l < n)

abbrev pub MonomialInRange : ℕ → Monomial → Type 0
MonomialInRange n m = All (InRange n) m

abbrev pub DisjunctionInRange : ℕ → Disjunction → Type 0
DisjunctionInRange n d = All (MonomialInRange n) d

eval_lit_step :
    (l : Lit) (m : Monomial) (bv : Bits) (r : Bool)
    → InRange (length bv) l
    → eval_monomial m bv ≡ done r
    → eval_monomial (l ∷ m) bv ≡ done (eval_lit (value_of bv) l && r)
unfolding eval_monomial
eval_lit_step (pos zero) m bv r h e = absurd (omega arith)
eval_lit_step (pos (suc n)) m bv r h e =
    ground (arith, get-done bv (suc n), lt→ltb (suc n) (length bv))
eval_lit_step (negsuc n) m bv r h e =
    ground (arith, get-done bv (suc n), lt→ltb (suc n) (length bv))

pub eval_monomial-done :
    (m : Monomial) (bv : Bits)
    → MonomialInRange (length bv) m
    → eval_monomial m bv ≡ done (holds_monomial (value_of bv) m)
unfolding eval_monomial
eval_monomial-done [] bv h = refl
eval_monomial-done (l ∷ m) bv h =
    eval_lit_step l m bv (holds_monomial (value_of bv) m) h.0 (eval_monomial-done m bv h.1)

-- When every literal of a disjunction is in the range of a bit vector no assertion of
-- cdnfformula_eval_M_DNF fails, and the result is the value of the disjunction at the assignment
-- that the vector stands for.
pub eval_m_dnf-done :
    (d : Disjunction) (bv : Bits)
    → DisjunctionInRange (length bv) d
    → eval_m_dnf d bv ≡ done (holds_disjunction (value_of bv) d)
unfolding eval_m_dnf
eval_m_dnf-done [] bv h = refl
eval_m_dnf-done (m ∷ ms) bv h =
    ground (arith, eval_monomial-done m bv h.0, eval_m_dnf-done ms bv h.1)

eval-literals :
    (ρ : Assignment) (m : Monomial) → eval ρ (monomial_to_boolformula m) ≡ holds_monomial ρ m
unfolding eval monomial_to_boolformula
eval-literals ρ [] = refl
eval-literals ρ (l ∷ m) = ap (λ b. eval_lit ρ l && b) (eval-literals ρ m)

eval-dnf :
    (ρ : Assignment) (d : Disjunction) → eval ρ (dnf_to_boolformula d) ≡ holds_disjunction ρ d
unfolding eval dnf_to_boolformula
eval-dnf ρ [] = refl
eval-dnf ρ (m ∷ ms) = rw (eval-literals ρ m, eval-dnf ρ ms)

-- The formula that cdnfformula_to_boolformula makes of a conjunction has its value under every
-- assignment.
pub eval-to_boolformula :
    (ρ : Assignment) (f : Conjunction) → eval ρ (to_boolformula f) ≡ holds_conjunction ρ f
unfolding eval to_boolformula
eval-to_boolformula ρ [] = refl
eval-to_boolformula ρ (d ∷ ds) = rw (eval-dnf ρ d, eval-to_boolformula ρ ds)

pub holds_disjunction-concat :
    (ρ : Assignment) (d : Disjunction) (m : Monomial)
    → holds_disjunction ρ (d ++ m ∷ []) ≡ (holds_disjunction ρ d || holds_monomial ρ m)
holds_disjunction-concat ρ [] m = ground arith
holds_disjunction-concat ρ (x ∷ d) m = ground (arith, holds_disjunction-concat ρ d m)

pub holds_monomial-append :
    (ρ : Assignment) (m n : Monomial)
    → holds_monomial ρ (m ++ n) ≡ (holds_monomial ρ m && holds_monomial ρ n)
holds_monomial-append ρ [] n = refl
holds_monomial-append ρ (x ∷ m) n = ground (arith, holds_monomial-append ρ m n)
