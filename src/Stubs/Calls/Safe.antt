-- ===== src/Stubs/Calls/Safe.antt =====
-- The entry points, with their callbacks, fail no assertion.
use dorder.Prelude.{
  ℕ, ◌+◌, ◌≡◌, ◌≢◌, refl, ap, sym, ◌∙◌, Bool, true, List, [], Option, none, some, Run, done, failed,
  out_of_fuel, All, arith, eq→==, length,
}
use dorder.BoolFormula.{BoolFormula}
use dorder.Learn.Teacher.{Mode, plain, plus, plus_plus, plus3, is_plus_plus}
use dorder.Learn.Core as Core
use dorder.Learn.Safety.{learn-ne-failed, learn-ne-null}
use dorder.Stubs.Closures.{
  Reply, Answer, equal, counterexample, malformed, Closures, teacher_of, answer_bits, GivesArrays,
  IsShaped-teacher, member_bits, equivalent_bits,
}
use dorder.Stubs.Names.{make_info, c_string-whole, Registry}
use dorder.Stubs.Called.Agrees.{learn-eq}
use dorder.Stubs.Calls.{
  string, callbacks, non_null, ocaml_cdnf_int, ocaml_cdnf, ocaml_cdnfx, ocaml_cdnfxx, ocaml_cdnfxxx,
}

-- A name without a NUL byte.
abbrev pub IsName : List ℕ → Type 0
IsName s = All (λ b. b ≢ 0) s

-- The closures for membership and equivalence are registered under the names `x` and `z`.
pub record IsRegistered (table : Registry) (c : Closures) (x z : List ℕ) : Type 0 where
  pub named_x : IsName x
  pub named_z : IsName z
  pub membership : table.membership x ≡ some c.membership
  pub equivalence : table.equivalence z ≡ some c.equivalence

equivalent_bits-eq :
    (c : Closures) (g : GivesArrays c) (k n : ℕ) (f : BoolFormula) (a : Answer)
    → c.equivalence k n f ≡ a
    → equivalent_bits (some (c.equivalence k)) n f ≡ done (answer_bits (c.equivalence k n f))
unfolding equivalent_bits
equivalent_bits-eq c g k n f equal e = rw e refl
equivalent_bits-eq c g k n f (counterexample bary) e =
    rw e (rw (eq→== (length bary) (n + 1) (omega (arith, g.sizes k n f bary e))) refl)
equivalent_bits-eq c g k n f malformed e = absurd (g.formed k n f e)

non_null-ne-failed :
    (r : Run (Option BoolFormula)) → r ≢ failed → r ≢ done none → non_null r ≢ failed
non_null-ne-failed (done none) p q e = q refl
non_null-ne-failed (done (some f)) p q e = cc
non_null-ne-failed failed p q e = p refl
non_null-ne-failed out_of_fuel p q e = cc

module _ (table : Registry) (c : Closures) (x z : List ℕ) (g : GivesArrays c)
    (reg : IsRegistered table c x z) where
  int-eq :
      (mode : Mode) (y : List ℕ)
      → IsName y
      → (is_plus_plus mode ≡ true
          → (comember : List Bool → Reply) × (table.membership y ≡ some comember)
            × (c.comembership ≡ some comember))
      → (tries fuel n : ℕ)
      → ocaml_cdnf_int table tries fuel n (string x) (string y) (string z) mode
        ≡ Core.learn (teacher_of c) mode tries fuel n
  unfolding ocaml_cdnf_int make_info member_bits
  int-eq mode y hy hc tries fuel n =
      learn-eq (teacher_of c) mode (callbacks table (make_info x y z))
        (record {
          member = λ v. rw (c_string-whole x reg.named_x, reg.membership) refl;
          comember =
              λ e v. let (comember, at, here) = hc e in rw (c_string-whole y hy, at, here) refl;
          equivalent = λ k n' f.
              rw (c_string-whole z reg.named_z, reg.equivalence)
                (equivalent_bits-eq c g k n' f (c.equivalence k n' f) refl);
        })
        tries fuel n

  -- Let the closures for membership and equivalence be registered under names without a NUL byte, let
  -- each counterexample have a field for each variable and field 0, and the closure give no values of another
  -- form. For ocaml_cdnfxx let a closure for comembership be registered likewise; nothing is assumed of the
  -- empty name, which the other entry points have in its place. Then no assertion fails in any of the four
  -- entry points, in their callbacks, or below them: not those on the tags of the names and on the closures
  -- found, and not those that the result is not NULL. Each does what the learner does with the teacher that
  -- answers as the closures do.
  pub entry_points-ne-failed :
      (y : List ℕ) (comember : List Bool → Reply)
      → IsName y
      → table.membership y ≡ some comember
      → c.comembership ≡ some comember
      → (tries fuel n : ℕ)
      → ((ocaml_cdnf table tries fuel n (string x) (string z)
            ≡ Core.learn (teacher_of c) plain tries fuel n)
          × (ocaml_cdnf table tries fuel n (string x) (string z) ≢ failed))
        × ((ocaml_cdnfx table tries fuel n (string x) (string z)
              ≡ non_null (Core.learn (teacher_of c) plus tries fuel n))
            × (ocaml_cdnfx table tries fuel n (string x) (string z) ≢ failed))
        × ((ocaml_cdnfxx table tries fuel n (string x) (string y) (string z)
              ≡ non_null (Core.learn (teacher_of c) plus_plus tries fuel n))
            × (ocaml_cdnfxx table tries fuel n (string x) (string y) (string z) ≢ failed))
        × ((ocaml_cdnfxxx table tries fuel n (string x) (string z)
              ≡ non_null (Core.learn (teacher_of c) plus3 tries fuel n))
            × (ocaml_cdnfxxx table tries fuel n (string x) (string z) ≢ failed))
  unfolding ocaml_cdnf ocaml_cdnfx ocaml_cdnfxx ocaml_cdnfxxx
  entry_points-ne-failed y comember hy at here tries fuel n =
      let t = teacher_of c in
      let shaped = IsShaped-teacher c g in
      let safe = λ (mode : Mode). learn-ne-failed t mode shaped tries fuel n in
      let e₀ = int-eq plain [] tt (λ e. cc) tries fuel n in
      let e₁ = ap non_null (int-eq plus [] tt (λ e. cc) tries fuel n) in
      let e₂ = ap non_null (int-eq plus_plus y hy (λ e. (comember, at, here)) tries fuel n) in
      let e₃ = ap non_null (int-eq plus3 [] tt (λ e. cc) tries fuel n) in
      (
        (e₀, λ e. safe plain (sym e₀ ∙ e)),
        (
          e₁,
          λ e.
              non_null-ne-failed _ (safe plus) (learn-ne-null t plus shaped tries fuel n refl)
                (sym e₁ ∙ e),
        ),
        (
          e₂,
          λ e.
              non_null-ne-failed _ (safe plus_plus)
                (learn-ne-null t plus_plus shaped tries fuel n refl) (sym e₂ ∙ e),
        ),
        (
          e₃,
          λ e.
              non_null-ne-failed _ (safe plus3) (learn-ne-null t plus3 shaped tries fuel n refl)
                (sym e₃ ∙ e),
        ),
      )
