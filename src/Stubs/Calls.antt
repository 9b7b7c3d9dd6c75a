-- ===== src/Stubs/Calls.antt =====
-- The entry points of cdnfp_stubs.c: the learner with the callbacks that find the closures by their names.
pub mod Safe
use dorder.Prelude.{ℕ, List, [], Option, none, some, Run, done, failed, ◌>>=◌, checked}
use dorder.BoolFormula.{BoolFormula}
use dorder.Learn.Teacher.{Mode, plain, plus, plus_plus, plus3}
use dorder.Stubs.Closures.{member_bits, equivalent_bits}
use dorder.Stubs.Names.{Info, make_info, Registry, at_query}
use dorder.Stubs.Called.{Callbacks, learn}

-- An OCaml value: a string, or a value with another tag.
pub data Value : Type 0 where
  string : List ℕ → Value
  other : Value

-- `assert (Tag_val (v) == String_tag)`, and `String_val`
abbrev pub string_val : Value → Run (List ℕ)
string_val (string s) = done s
string_val other = failed

-- The callbacks with an `Info` as their first argument.
abbrev pub callbacks : Registry → Info → Callbacks
callbacks table info = record {
  membership = member_bits (table.membership info.is_member_name);
  comembership = member_bits (table.membership info.is_comember_name);
  equivalence = λ k num_vars f.
      equivalent_bits (at_query k (table.equivalence info.is_equivalent_name)) num_vars f;
}

-- `assert (bool_f != NULL)`
abbrev pub non_null : Run (Option BoolFormula) → Run BoolFormula
non_null r = r >>= checked

module _ (table : Registry) (tries fuel num_vars : ℕ) where
  unfoldable pub ocaml_cdnf_int : Value → Value → Value → Mode → Run (Option BoolFormula)
  unfolding make_info learn member_bits equivalent_bits
  ocaml_cdnf_int val_is_member val_is_comember val_is_equivalent mode = do
    is_member_name ← string_val val_is_member
    is_comember_name ← string_val val_is_comember
    is_equivalent_name ← string_val val_is_equivalent
    let info = make_info is_member_name is_comember_name is_equivalent_name
    learn (callbacks table info) mode tries fuel num_vars

  -- `val_is_comember` is the empty string here and in `ocaml_cdnfx` and `ocaml_cdnfxxx`.
  unfoldable pub ocaml_cdnf : Value → Value → Run (Option BoolFormula)
  unfolding ocaml_cdnf_int
  ocaml_cdnf val_is_member val_is_equivalent =
      ocaml_cdnf_int val_is_member (string []) val_is_equivalent plain

  unfoldable pub ocaml_cdnfx : Value → Value → Run BoolFormula
  unfolding ocaml_cdnf_int
  ocaml_cdnfx val_is_member val_is_equivalent =
      non_null (ocaml_cdnf_int val_is_member (string []) val_is_equivalent plus)

  unfoldable pub ocaml_cdnfxx : Value → Value → Value → Run BoolFormula
  unfolding ocaml_cdnf_int
  ocaml_cdnfxx val_is_member val_is_comember val_is_equivalent =
      non_null (ocaml_cdnf_int val_is_member val_is_comember val_is_equivalent plus_plus)

  unfoldable pub ocaml_cdnfxxx : Value → Value → Run BoolFormula
  unfolding ocaml_cdnf_int
  ocaml_cdnfxxx val_is_member val_is_equivalent =
      non_null (ocaml_cdnf_int val_is_member (string []) val_is_equivalent plus3)
