-- ===== src/Stubs.antt =====
-- learning/cdnf/cdnfp_stubs.c: the bindings by which OCaml calls the learner. `Arrays` converts bit
-- vectors, `Closures` has the callbacks, `Names` finds the closures, `Called` is the learner with callbacks
-- that may fail, `Calls` has the entry points, `Access` reads formulas as trees; `Handles`, `Session` and `Transformed` are about the bindings on the store, and
-- `Query`, `Learner` and `Entry` about the learner there.
pub mod Arrays
pub mod Called
pub mod Calls
pub mod Closures
pub mod Access
pub mod Handles
pub mod Session
pub mod Transformed
pub mod Query
pub mod Learner
pub mod Entry
pub mod Names
