-- ===== src/Stubs/Learner/Refines.antt =====
-- The learner on the store, next to that on trees.
use dorder.Prelude.{
  ℕ, zero, suc, ◌+◌, ◌≡◌, refl, sym, ap, subst, ◌∙◌, true, Option, none, some, List, [], ◌∷◌, ◌++◌,
  Run, done, >>=-eq-done, assert, arith, ◌==◌, length, Bool-cases, inl, inr,
}
use dorder.Bits.{Bits}
use dorder.BoolFormula.{BoolFormula, copy}
use dorder.BoolFormula.Meaning.{copy_lem}
use dorder.BoolFormula.Store.{Ptr}
use dorder.BoolFormula.Store.Count.{count-append}
use dorder.CdnfFormula as Formula
use dorder.CdnfFormula.{Conjunction}
use dorder.Learn.Teacher.{Teacher, Mode, is_plus}
use dorder.Learn.Bases.{Basis, add_basis, get_conjecture}
use dorder.Learn.Core as Tree
use dorder.Learn.Core.{Next, continue, conflict, round}
use dorder.Stubs.Session.{Session}
use dorder.Stubs.Query.Counted.{offer-Offers}
use dorder.Stubs.Query.Concluded.{returned, Answers, conclude-Answers}
use dorder.Stubs.Learner.Behaves.{Behaves, StandsFor, IsSound}
use dorder.Stubs.Learner.{is_equal, query, loop, learn_core, restart, learn}

module _ (Loss : (Ptr → ℕ) → Type 0) (teacher : Teacher) (mode : Mode)
    (ask : ℕ → ℕ → Ptr → Session → Option Bits × Session) (h : Behaves Loss teacher ask) where
  -- The run ends with what the run on trees returned.
  abbrev Ends : Option BoolFormula → Run (Option Ptr × Session) → Type 0
  Ends o run =
      (r : Option Ptr) × (t : Session) × (run ≡ done (r, t))
      × StandsFor o r t.store
      × IsSound Loss t.store (returned r ++ t.held)

  query-Answers :
      (k n : ℕ) (c : Conjunction) (s : Session)
      → IsSound Loss s.store s.held
      → (b : Ptr) × (r : Option Ptr) × (t : Session) × (query teacher mode ask k n c s
          ≡ done (teacher.equivalence k n (Formula.to_boolformula c), r, t))
        × Answers
            (is_equal (teacher.equivalence k n (Formula.to_boolformula c)))
            b
            (Formula.to_boolformula c)
            r
            t.store
        × IsSound Loss t.store (returned r ++ t.held)
  unfolding query
  query-Answers k n c s w =
      let g = Formula.to_boolformula c in
      let (s₁, f, e, o) = offer-Offers c s.store in
      let asked : Session = record { store = s₁; held = f ∷ s.held } in
      let t = (ask k n f asked).1 in
      let same = h.answers k n f g asked o.wrapped in
      let a = teacher.equivalence k n g in
      let reach = h.steps k n f asked in
      let full = h.filled k n f asked (o.filled w.filled) in
      let (lost', allowed, counted) =
        h.losses k n f asked (length s.store ∷ []) w.lost w.allowed (λ q. omega (
          arith,
          o.counted w.lost s.held w.counted q,
          count-append q asked.held (length s.store ∷ []),
        )) in
      let (r, s₂, lost, run, answered, le, before, acc, full') =
        conclude-Answers s c (length s.store) f s₁ e w.lost t (is_equal a) w.counted reach full in
      (
        length s.store,
        r,
        record { store = s₂; held = t.held },
        rw e (rw same (rw run refl)),
        answered,
        record {
          lost = lost';
          allowed = allowed;
          counted = λ q.
              omega
                (arith, acc q, before q, counted q, count-append q t.held (length s.store ∷ []));
          filled = full';
        },
      )

  abbrev LoopEnds : ℕ → Type 0
  LoopEnds fuel =
      (k : ℕ) (bases : List Basis) (n : ℕ) (s : Session) (o : Option BoolFormula)
      → IsSound Loss s.store s.held
      → Tree.loop teacher mode fuel k bases n ≡ done o
      → Ends o (loop teacher mode ask fuel k bases n s)

  same_result : {o o' : Option BoolFormula} → done o ≡ done o' → o ≡ o'
  same_result e = cc

  -- NULL was returned: the session is as sound as it was.
  go_on :
      (r : Option Ptr) (t : Session)
      → r ≡ none
      → IsSound Loss t.store (returned r ++ t.held)
      → IsSound Loss t.store t.held
  go_on r t e w = subst (λ x. IsSound Loss t.store (returned x ++ t.held)) e w

  -- The query returned the formula.
  equal-Ends :
      (g : BoolFormula) (o : Option BoolFormula) (b : Ptr) (r : Option Ptr) (t : Session)
      → some g ≡ o
      → Answers true b g r t.store
      → StandsFor o r t.store
  equal-Ends g o b r t e (at_r, reads) =
      subst (λ x. StandsFor x r t.store) e
        (subst (λ x. StandsFor (some g) x t.store) (sym at_r) reads)

  module _ (fuel : ℕ) (ih : LoopEnds fuel) (k : ℕ) (bases : List Basis) (n : ℕ) (s : Session)
      (o : Option BoolFormula) (w : IsSound Loss s.store s.held)
      (e : Tree.loop teacher mode (suc fuel) k bases n ≡ done o) where
    asked :
        teacher.equivalence k n (copy (Tree.conjecture teacher mode bases))
        ≡ teacher.equivalence k n (Formula.to_boolformula (get_conjecture bases))
    unfolding Tree.conjecture
    asked = ap (teacher.equivalence k n) (copy_lem (Formula.to_boolformula (get_conjecture bases)))

    round-Ends :
        (a : Option Bits)
        → teacher.equivalence k n (Formula.to_boolformula (get_conjecture bases)) ≡ a
        → Ends o (loop teacher mode ask (suc fuel) k bases n s)
    unfolding loop Tree.loop Formula.to_boolformula Tree.conjecture
    round-Ends none q =
        let g = Formula.to_boolformula (get_conjecture bases) in
        let (b, r, t, run, answered, w') = query-Answers k n (get_conjecture bases) s w in
        let e' = rw (asked ∙ q, Tree.loop) at e in
        (r, t, rw run (rw q refl), equal-Ends g o b r t (same_result e') (rw q at answered), w')
    round-Ends (some v) q =
        let g = Formula.to_boolformula (get_conjecture bases) in
        let (b, r, t, run, answered, w') = query-Answers k n (get_conjecture bases) s w in
        let sound = go_on r t (rw q at answered) w' in
        let (next, e₁, e₂) =
          >>=-eq-done (round teacher mode v bases n) _ (rw (asked ∙ q, Tree.loop) at e) in
        after t sound run next e₁
      where
        after :
            {r : Option Ptr} (t : Session)
            → IsSound Loss t.store t.held
            → query teacher mode ask k n (get_conjecture bases) s
              ≡ done (teacher.equivalence k n (Formula.to_boolformula (get_conjecture bases)), r, t)
            → (next : Next) → round teacher mode v bases n ≡ done next
            → Ends o (loop teacher mode ask (suc fuel) k bases n s)
        after t sound run conflict e₁ =
            let e₂ = rw (asked ∙ q, e₁, Tree.loop) at e in
            (
              none,
              t,
              rw run (rw (q, e₁) refl),
              subst (λ x. StandsFor x none t.store) (same_result e₂) tt,
              sound,
            )
        after t sound run (continue bases' n') e₁ =
            let e₂ = rw (asked ∙ q, e₁, Tree.loop) at e in
            let (r', t', run', stands, sound') = ih (suc k) bases' n' t o sound e₂ in
            (r', t', rw run (rw (q, e₁) run'), stands, sound')

  loop-Ends : (fuel : ℕ) → LoopEnds fuel
  unfolding Tree.loop
  loop-Ends zero k bases n s o w e = cc
  loop-Ends (suc fuel) k bases n s o w e =
      round-Ends fuel (loop-Ends fuel) k bases n s o w e
        (teacher.equivalence k n (Formula.to_boolformula (get_conjecture bases))) refl

  module _ (fuel n : ℕ) (s : Session) (o : Option BoolFormula) (w : IsSound Loss s.store s.held)
      (e : Tree.learn_core teacher mode fuel n ≡ done o) where
    first_asked :
        teacher.equivalence 0 n (copy (Tree.conjecture teacher mode []))
        ≡ teacher.equivalence 0 n (Formula.to_boolformula (get_conjecture []))
    unfolding Tree.conjecture
    first_asked =
        ap (teacher.equivalence 0 n) (copy_lem (Formula.to_boolformula (get_conjecture [])))

    first-Ends :
        (a : Option Bits)
        → teacher.equivalence 0 n (Formula.to_boolformula (get_conjecture [])) ≡ a
        → Ends o (learn_core teacher mode ask fuel n s)
    unfolding learn_core Tree.learn_core Formula.to_boolformula Tree.conjecture
    first-Ends none q =
        let g = Formula.to_boolformula (get_conjecture []) in
        let (b, r, t, run, answered, w') = query-Answers 0 n (get_conjecture []) s w in
        let e' = rw (first_asked ∙ q, Tree.learn_core) at e in
        (r, t, rw run (rw q refl), equal-Ends g o b r t (same_result e') (rw q at answered), w')
    first-Ends (some v) q =
        let g = Formula.to_boolformula (get_conjecture []) in
        let (b, r, t, run, answered, w') = query-Answers 0 n (get_conjecture []) s w in
        let sound = go_on r t (rw q at answered) w' in
        let (_, e₁, e₂) =
          >>=-eq-done (assert (length v == n + 1)) _ (rw (first_asked ∙ q, Tree.learn_core) at e) in
        let (r', t', run', stands, sound') = loop-Ends fuel 1 (add_basis [] v) n t o sound e₂ in
        (r', t', rw run (rw (q, e₁) run'), stands, sound')

  learn_core-Ends :
      (fuel n : ℕ) (s : Session) (o : Option BoolFormula)
      → IsSound Loss s.store s.held
      → Tree.learn_core teacher mode fuel n ≡ done o
      → Ends o (learn_core teacher mode ask fuel n s)
  learn_core-Ends fuel n s o w e =
      first-Ends fuel n s o w e
        (teacher.equivalence 0 n (Formula.to_boolformula (get_conjecture []))) refl

  restart-Ends :
      (tries fuel n : ℕ) (s : Session) (o : Option BoolFormula)
      → IsSound Loss s.store s.held
      → Tree.restart teacher mode tries fuel n ≡ done o
      → Ends o (restart teacher mode ask tries fuel n s)
  unfolding restart Tree.restart
  restart-Ends zero fuel n s o w e = cc
  restart-Ends (suc tries) fuel n s o w e =
      let (r, e₁, e₂) = >>=-eq-done (Tree.learn_core teacher mode fuel n) _ e in
      after (λ t sound e₃. restart-Ends tries fuel (n + 1) t o sound e₃) r e₁
        (learn_core-Ends fuel n s r w e₁)
    where
      after :
          ((t : Session)
            → IsSound Loss t.store t.held
            → Tree.restart teacher mode tries fuel (n + 1) ≡ done o
            → Ends o (restart teacher mode ask tries fuel (n + 1) t))
          → (f : Option BoolFormula) → Tree.learn_core teacher mode fuel n ≡ done f
          → Ends f (learn_core teacher mode ask fuel n s)
          → Ends o (restart teacher mode ask (suc tries) fuel n s)
      after again (some f) e₁ (none, t, run, stands, sound) = absurd stands
      after again (some f) e₁ (some p, t, run, stands, sound) = (
        some p,
        t,
        rw run refl,
        subst (λ x. StandsFor x (some p) t.store) (same_result (rw (e₁, Tree.restart) at e)) stands,
        sound,
      )
      after again none e₁ (some p, t, run, stands, sound) = absurd stands
      after again none e₁ (none, t, run, stands, sound) =
          let (r', t', run', stands', sound') = again t sound (rw (e₁, Tree.restart) at e) in
          (r', t', rw run run', stands', sound')

  -- Let the closure answer as the teacher does on the formula that its wrapper stands for, and otherwise
  -- take steps of a session that leave no slot unwritten. Let `Loss` be any property of the lost references
  -- that the closure keeps, whatever others hold besides the wrappers, for instance that there are none, and
  -- let the session have right counts with such lost references and written slots. If the learner on trees
  -- returns, so does the learner on the store: NULL for no formula, and else a pointer that stands for the
  -- same formula. The counts are right with this pointer for a holder and again with lost references as
  -- `Loss` says, so the learner has given all other formulas back.
  pub learn-StandsFor :
      (tries fuel n : ℕ) (s : Session) (o : Option BoolFormula)
      → IsSound Loss s.store s.held
      → Tree.learn teacher mode tries fuel n ≡ done o
      → (r : Option Ptr) × (t : Session) × (learn teacher mode ask tries fuel n s ≡ done (r, t))
        × StandsFor o r t.store
        × IsSound Loss t.store (returned r ++ t.held)
  unfolding learn Tree.learn
  learn-StandsFor tries fuel n s o w e = elim (Bool-cases (is_plus mode)) [
    | inl b ↦
        let (r, t, run, stands, sound) = restart-Ends tries fuel n s o w (rw b at e) in
        (r, t, rw b run, stands, sound)
    | inr b ↦
        let (r, t, run, stands, sound) = learn_core-Ends fuel n s o w (rw b at e) in
        (r, t, rw b run, stands, sound)
  ]
