-- ===== src/Lib.antt =====
-- The learner of Boolean formulas of DOrder, in C: external/cdnfcore, and learning/cdnf with its
-- binding to OCaml, cdnfp_stubs.c, and that of the MiniSat library, minisat_stubs.cc.
--
-- `learn` (external/cdnfcore/cdnf.c) learns a Boolean function from a teacher that answers
-- whether an assignment satisfies it (membership) and whether a formula equals it (equivalence,
-- with a counterexample). It keeps a list of bases. Each is a point `a` with supports `t` and one
-- monomial of `h` for each of these. The conjecture is the conjunction of the `h`. A
-- counterexample where some `h` are false is moved towards their `a` by `walk` and becomes a
-- support; one where all are true becomes a new basis. In the modes CDNF_PlusPlus and CDNF_Plus3
-- a conflict adds a variable to all points (`refine_bases`), in the mode CDNF_Plus it starts anew
-- with one variable more.
--
--   Prelude       runs, lists, integers and Boolean tests that the parts share
--   Vector        external/cdnfcore/vector.c: growing arrays
--   Bitvector     external/cdnfcore/bitvector.c: buffers of words
--   Bits          the abstract bit vectors, which have no code of their own
--   BoolFormula   external/cdnfcore/boolformula.c: formulas as trees; Access reads and Build makes them,
--                 Cnf is `boolformula_to_cnf`, Print is `boolformula_print`. Store is the code on a
--                 store of objects with reference counts: Count, Free, Calls, Safe, Changes and
--                 Counted are about the counts; Placed are formulas in a store, Frame what keeps them there;
--                 Neg, Negated and Shared are about `boolformula_neg`, Copy is `boolformula_copy`; Reads are
--                 formulas in a store whatever the counts, Depth bounds their depth, Cnf is
--                 `boolformula_to_cnf`
--   CdnfFormula   external/cdnfcore/cdnfformula.c: conjunctions of disjunctions of monomials; Print
--                 writes them, Vectors are its units and adds on vectors, Store makes formulas of
--                 them on the store of boolformula.c
--   Learn         external/cdnfcore/cdnf.c; Teacher is query.h; Walk, Bases, Refine, Core are the code
--                 and the rest proofs: Honest, Points, Indices and Rounds one counterexample,
--                 Measure, Counting and Total termination, Sound, Refined, Keeps and Safety the
--                 assertions, Accepted the returned formula, Unasked the comembership callback
--   Memory        the functions of external/cdnfcore that give memory back, up to `cleanup` of cdnf.c
--   Stubs         learning/cdnf/cdnfp_stubs.c: Arrays, Closures with the callbacks, Names of the
--                 closures, Called is `learn` with callbacks in which an assertion may fail, and
--                 Calls has the entry points with their assertions; Access for formulas as trees;
--                 Handles are the bindings on the store, Session what OCaml code and its collector
--                 do with them, step by step, Transformed what `ocaml_to_cnf` returns, and Query
--                 the formulas of an equivalence query, for the learner and for the closure,
--                 Learner is `learn` with its formulas on the store, and Entry has the entry
--                 points there, which wrap its result
--   Minisat       learning/cdnf/minisat_stubs.cc, with the library as a parameter; Wrappers has the
--                 solvers as objects
--   Examples      the theorems at concrete inputs, and tests
--
-- A function keeps its name from C without the prefix `boolformula_` or `cdnfformula_`; the body
-- of a loop, or a loop, is a function beside that in which it stands. A run ends as `done`, as
-- `failed` (an `assert`, or an access out of bounds) or `out_of_fuel`. Where the code returns
-- NULL in place of a formula the model has `none`.
--
-- Fuel. `walk` has fuel (length + 1)^2: each flip that stays brings the vector nearer to `a`, and
-- between two of them the index only falls. The `while` loop of `learn_core` and the restarts of
-- CDNF_Plus have their fuel as an argument. `length_to_size` of vector.c has the length as fuel.
-- `boolformula_free`, `boolformula_neg`, `boolformula_copy` and `boolformula_to_cnf` on the store
-- have fuel for the depth of their calls: more than the number of objects for the first, the
-- depth of the formula for the others, which is at most the number of objects. All other loops
-- are structural.
--
-- Assumptions. The teacher, or the OCaml closures behind it, is a parameter: membership is a
-- function, an answer to an equivalence query may also depend on the number of the query. Numbers
-- are those of x86_64. A word is the function from its bit numbers, and the mask `1 << 31` is an
-- `int` that is sign-extended to 64 bits. What `malloc` leaves in a buffer is a parameter. Memory
-- is never exhausted. The numbers of variables and literals do not overflow: they are below 2^31,
-- as `boolformula_num_of_var` takes the absolute value of an `int`. Arguments are not NULL.
-- Closures are functions; what the OCaml runtime has under a name, the empty one included, is a
-- parameter, and a value that is neither EQ nor CE is one constructor of an answer. An object on
-- the store has a number that no other had before. The collector finalises a wrapper only while
-- every slot of the store is written, and OCaml code copies or transforms only objects that stand
-- for a formula (every slot below them is written, and none of them is below itself); reference
-- counts do not overflow, and the lengths and indices that OCaml code passes are not negative.
-- The text that `%ld` writes for a literal is a parameter, of which its digits, its sign and that
-- it differs from that of another literal are assumed; MiniSat is one, too, with the clauses that
-- a solver has, and what its answers mean, as documented.
--
-- In Learner and Entry the callbacks fail no assertion; the closure for equivalence may do
-- whatever the bindings allow, that for membership does nothing to the store.
--
-- Memory has the blocks that are freed and not what stands in them: a read of a block that was
-- freed is not seen there. On the store of formulas a freed object cannot be read.
--
-- The learner works on the abstract bit vectors. Only Bitvector and Stubs go down to the words of
-- a buffer, where `size` may fall behind the buffer, as `bitvector_resize` does not update it.
--
-- Not modelled: the memory of the record `Info` and of the names in it, which the code never
-- gives back. The solvers and external/gpa-5 are other projects, and the type inference in OCaml
-- does not take part in what this C code does.
pub mod Prelude
pub mod Vector
pub mod Bits
pub mod Bitvector
pub mod BoolFormula
pub mod CdnfFormula
pub mod Learn
pub mod Memory
pub mod Stubs
pub mod Minisat
pub mod Examples
