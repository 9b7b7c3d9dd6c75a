-- ===== src/Learn/Keeps.antt =====
-- One round of cdnf.c against any teacher: the invariant of the state.
use dorder.Prelude.{
  ℕ, zero, suc, ◌+◌, ◌<◌, ◌≡◌, refl, subst, Bool, true, false, ◌&&◌, ◌||◌, List, [], ◌∷◌, ◌++◌, Run,
  done, inl, inr, arith, Bool-cases, length, All, All-imp, All-get, All-set, All-concat,
  get_elem?-some, set, length-set, eq→==, ◌==◌,
}
use dorder.Bits.{Bits, value_of}
use dorder.CdnfFormula.{Disjunction}
use dorder.CdnfFormula.Meaning.{holds_disjunction, eval_m_dnf-done}
use dorder.Learn.Teacher.{Teacher, Mode, is_plus_plus, is_plus3}
use dorder.Learn.Bases.{Basis, add_basis, indices_from}
use dorder.Learn.Refine.{is_empty}
use dorder.Learn.Core.{
  Next, continue, conflict, add_support, on_clash, refine, fix_bases, on_all_true, round,
}
use dorder.Learn.Honest.{Point}
use dorder.Learn.Sound.{IsSound, fix_basis-cases, IsSound-support}
use dorder.Learn.Refined.{IsFull, FullBefore, refine_bases-done}

-- The state between two rounds.
pub record Inv (n : ℕ) (bases : List Basis) : Type 0 where
  pub sound : All (IsSound n) bases
  pub full : FullBefore bases

-- The modes in which a conflict refines the bases.
abbrev pub refines : Mode → Bool
refines mode = is_plus_plus mode || is_plus3 mode

abbrev pub Keeps : Mode → Next → Type 0
Keeps mode conflict = refines mode ≡ false
Keeps mode (continue bases n) = Inv n bases

abbrev pub GoesOn : Mode → Run Next → Type 0
GoesOn mode r = (next : Next) × (r ≡ done next) × Keeps mode next

All-FullBefore : (bases : List Basis) → All IsFull bases → FullBefore bases
All-FullBefore [] h = tt
All-FullBefore (b ∷ []) h = tt
All-FullBefore (b ∷ c ∷ bases) h = (h.0, All-FullBefore (c ∷ bases) h.1)

concat-FullBefore :
    (bases : List Basis) (b : Basis) → All IsFull bases → FullBefore (bases ++ b ∷ [])
concat-FullBefore [] b h = tt
concat-FullBefore (c ∷ []) b h = (h.0, tt)
concat-FullBefore (c ∷ d ∷ bases) b h = (h.0, concat-FullBefore (d ∷ bases) b h.1)

not_empty : (vs : List Bits) (v : Bits) → is_empty (vs ++ v ∷ []) ≡ false
not_empty [] v = refl
not_empty (w ∷ vs) v = refl

set-FullBefore :
    (bases : List Basis) (i : ℕ) (c : Basis)
    → IsFull c
    → FullBefore bases
    → FullBefore (set bases i c)
set-FullBefore [] i c f h = h
set-FullBefore (b ∷ []) zero c f h = tt
set-FullBefore (b ∷ []) (suc i) c f h = tt
set-FullBefore (b ∷ d ∷ bases) zero c f h = (f, h.1)
set-FullBefore (b ∷ d ∷ bases) (suc zero) c f h = (h.0, set-FullBefore (d ∷ bases) zero c f h.1)
set-FullBefore (b ∷ d ∷ bases) (suc (suc i)) c f h =
    (h.0, set-FullBefore (d ∷ bases) (suc i) c f h.1)

-- A disjunction that is true somewhere is of a basis with a support.
true-IsFull :
    (n : ℕ) (v : Bits) (b : Basis)
    → IsSound n b
    → holds_disjunction (value_of v) b.h ≡ true
    → IsFull b
true-IsFull n v b s h = nonempty b.h b.t s.paired h
  where
    nonempty :
        (d : Disjunction) (t : List Bits)
        → length d ≡ length t
        → holds_disjunction (value_of v) d ≡ true
        → is_empty t ≡ false
    nonempty [] [] e h = cc
    nonempty [] (w ∷ t) e h = refl
    nonempty (m ∷ d) [] e h = absurd (omega arith)
    nonempty (m ∷ d) (w ∷ t) e h = refl

indices-done :
    (n : ℕ) (v : Bits) (pv : Point n v) (i : ℕ) (bases : List Basis)
    → All (IsSound n) bases
    → (is : List ℕ) × (indices_from i bases v ≡ done is)
      × All (λ j. j < i + length bases) is
      × (is ≡ [] → All IsFull bases)
unfolding indices_from
indices-done n v pv i [] s = ([], refl, tt, λ _. tt)
indices-done n v pv i (b ∷ bases) s =
    let (is, e, inside, all) = indices-done n v pv (suc i) bases s.1 in
    let here = eval_m_dnf-done b.h v (rw pv.0 s.0.range) in
    let inside' = All-imp (λ (j : ℕ) (p : j < suc i + length bases). wider j p) is inside in
    elim (Bool-cases (holds_disjunction (value_of v) b.h)) [
      | inl t ↦ (is, rw (here, t, e) refl, inside', λ h. (true-IsFull n v b s.0 t, all h))
      | inr f ↦ (i ∷ is, rw (here, f, e) refl, (omega arith, inside'), λ h. cc)
    ]
  where
    wider : (j : ℕ) → j < suc i + length bases → j < i + suc (length bases)
    wider j p = omega arith

module _ (teacher : Teacher) (mode : Mode) where
  refine-GoesOn :
      (n : ℕ) (bases : List Basis) → Inv n bases → GoesOn mode (refine teacher mode bases n)
  unfolding refine
  refine-GoesOn n bases inv =
      let (bases', e, sound, all) = refine_bases-done teacher mode n bases inv.sound inv.full in
      (
        continue bases' (n + 1),
        rw e refl,
        subst (λ k. Inv k bases') (one n)
            (record { sound = sound; full = All-FullBefore bases' all }),
      )
    where
      one : (k : ℕ) → suc k ≡ k + 1
      one k = omega arith

  on_clash-GoesOn :
      (n : ℕ) (bases : List Basis) → Inv n bases → GoesOn mode (on_clash teacher mode bases n)
  unfolding on_clash
  on_clash-GoesOn n bases inv = elim (Bool-cases (is_plus_plus mode || is_plus3 mode)) [
    | inl e ↦ rw e (refine-GoesOn n bases inv)
    | inr e ↦ rw e (conflict, refl, e)
  ]

  module _ (n : ℕ) (v : Bits) (pv : Point n v) where
    fix_bases-GoesOn :
        (is : List ℕ) (bases : List Basis)
        → All (λ i. i < length bases) is
        → Inv n bases
        → GoesOn mode (fix_bases teacher mode is v bases n)
    unfolding fix_bases
    fix_bases-GoesOn [] bases inside inv = (continue bases n, refl, inv)
    fix_bases-GoesOn (i ∷ is) bases inside inv =
        let (b, at) = get_elem?-some bases i inside.0 in
        let sound = All-get (IsSound n) bases i inv.sound at in
        elim (fix_basis-cases teacher mode n b v sound pv) [
          | inl e ↦ rw (at, e) (on_clash-GoesOn n bases inv)
          | inr (w, m, e, p, range) ↦
              let b' = add_support b w m in
              let next =
                fix_bases-GoesOn is (set bases i b')
                  (All-imp
                    (λ (j : ℕ) (q : j < length bases). omega (arith, q, length-set bases i b')) is
                    inside.1)
                  (record {
                    sound =
                        All-set (IsSound n) bases i b' inv.sound
                          (IsSound-support teacher mode n b w m sound p range);
                    full = set-FullBefore bases i b' (not_empty b.t w) inv.full;
                  }) in
              rw (at, e) next
        ]

    on_all_true-GoesOn :
        (bases : List Basis)
        → Inv n bases
        → All IsFull bases
        → GoesOn mode (on_all_true teacher mode v bases n)
    unfolding on_all_true
    on_all_true-GoesOn bases inv all = elim (Bool-cases (is_plus3 mode && teacher.membership v)) [
      | inl e ↦ rw e (refine-GoesOn n bases inv)
      | inr e ↦ rw e (
        continue (add_basis bases v) n,
        refl,
        record {
          sound =
              All-concat (IsSound n) bases (record { h = []; t = []; a = v }) inv.sound
                (record { origin = pv; supports = tt; range = tt; paired = refl });
          full = concat-FullBefore bases (record { h = []; t = []; a = v }) all;
        },
      )
    ]

    pub round-GoesOn :
        (bases : List Basis) → Inv n bases → GoesOn mode (round teacher mode v bases n)
    unfolding round
    round-GoesOn bases inv =
        let (is, e, inside, all) = indices-done n v pv 0 bases inv.sound in
        cases is e inside all (eq→== (length v) (n + 1) (omega (arith, pv.0)))
      where
        cases :
            (is : List ℕ)
            → indices_from 0 bases v ≡ done is
            → All (λ j. j < 0 + length bases) is
            → (is ≡ [] → All IsFull bases)
            → (length v == (n + 1)) ≡ true
            → GoesOn mode (round teacher mode v bases n)
        cases [] e inside all size = rw (size, e) (on_all_true-GoesOn bases inv (all refl))
        cases (i ∷ is) e inside all size =
            rw (size, e)
              (fix_bases-GoesOn (i ∷ is) bases
                (All-imp (λ (j : ℕ) (q : j < 0 + length bases). plain_bound j q) (i ∷ is) inside)
                inv)
          where
            plain_bound : (j : ℕ) → j < 0 + length bases → j < length bases
            plain_bound j q = omega arith
