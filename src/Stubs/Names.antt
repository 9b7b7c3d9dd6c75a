-- ===== src/Stubs/Names.antt =====
-- The names by which cdnfp_stubs.c finds the closures, from `ocaml_cdnf_int` to the callbacks. A string
-- is the list of its bytes. The table of `caml_named_value`, which the OCaml runtime keeps, is a
-- parameter.
use dorder.Prelude.{
  ℕ, ◌≡◌, ◌≢◌, refl, Bool, List, [], ◌∷◌, Option, none, some, Run, All, ◌==◌, ne→==, if◌then◌else◌,
}
use dorder.BoolFormula.{BoolFormula}
use dorder.Bitvector.{Bitvector}
use dorder.Bitvector.Words.{Word}
use dorder.Stubs.Closures.{Reply, Answer, Closures, is_member, is_equivalent}

-- The names in an `Info`.
pub record Info : Type 0 where
  pub is_member_name : List ℕ
  pub is_comember_name : List ℕ
  pub is_equivalent_name : List ℕ

-- What `strlen` counts and `strcpy` copies of a string: the bytes in front of the first NUL.
unfoldable pub c_string : List ℕ → List ℕ
c_string [] = []
c_string (c ∷ s) = if c == 0 then [] else c ∷ c_string s

-- The `Info` of `ocaml_cdnf_int`.
unfoldable pub make_info : List ℕ → List ℕ → List ℕ → Info
unfolding c_string
make_info val_is_member val_is_comember val_is_equivalent = record {
  is_member_name = c_string val_is_member;
  is_comember_name = c_string val_is_comember;
  is_equivalent_name = c_string val_is_equivalent;
}

-- What is registered under each name: closures of the two types.
pub record Registry : Type 0 where
  pub membership : List ℕ → Option (List Bool → Reply)
  pub equivalence : List ℕ → Option (ℕ → ℕ → BoolFormula → Answer)

-- The closure of the `k`-th query.
abbrev pub at_query : ℕ → Option (ℕ → ℕ → BoolFormula → Answer) → Option (ℕ → BoolFormula → Answer)
at_query k none = none
at_query k (some f) = some (f k)

unfoldable pub call_is_member : Registry → Info → Bitvector → Run Bool
unfolding is_member
call_is_member table info bv = is_member (table.membership info.is_member_name) bv

unfoldable pub call_is_comember : Registry → Info → Bitvector → Run Bool
unfolding is_member
call_is_comember table info bv = is_member (table.membership info.is_comember_name) bv

unfoldable pub call_is_equivalent :
    (ℕ → Word) → Registry → Info → ℕ → ℕ → BoolFormula → Run (Option Bitvector)
unfolding is_equivalent
call_is_equivalent junk table info k num_vars f =
    is_equivalent junk (at_query k (table.equivalence info.is_equivalent_name)) num_vars f

pub c_string-whole : (s : List ℕ) → All (λ c. c ≢ 0) s → c_string s ≡ s
unfolding c_string
c_string-whole [] h = refl
c_string-whole (c ∷ s) h = rw (ne→== c 0 h.0, c_string-whole s h.1) refl

-- If no name contains a NUL byte and the closures are registered under their names, the callbacks
-- find them with the `Info` of `ocaml_cdnf_int`.
make_info-closures :
    (table : Registry) (c : Closures) (x y z : List ℕ)
    → All (λ b. b ≢ 0) x
    → All (λ b. b ≢ 0) y
    → All (λ b. b ≢ 0) z
    → table.membership x ≡ some c.membership
    → table.membership y ≡ c.comembership
    → table.equivalence z ≡ some c.equivalence
    → ((bv : Bitvector)
        → call_is_member table (make_info x y z) bv ≡ is_member (some c.membership) bv)
      × ((bv : Bitvector)
          → call_is_comember table (make_info x y z) bv ≡ is_member c.comembership bv)
      × ((junk : ℕ → Word) (k n : ℕ) (f : BoolFormula)
          → call_is_equivalent junk table (make_info x y z) k n f
            ≡ is_equivalent junk (some (c.equivalence k)) n f)
unfolding call_is_member call_is_comember call_is_equivalent make_info
make_info-closures table c x y z hx hy hz ex ey ez = (
  (λ bv. rw (c_string-whole x hx, ex) refl),
  (λ bv. rw (c_string-whole y hy, ey) refl),
  λ junk k n f. rw (c_string-whole z hz, ez) refl,
)
