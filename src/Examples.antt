-- ===== src/Examples.antt =====
-- Tests of the model on small inputs, and the theorems at inputs that meet their hypotheses: the
-- learner with teachers for small functions, formulas, and buffers of three elements.
pub mod Parity
pub mod Formulas
pub mod Buffers
pub mod Closures
pub mod Solver
pub mod Sharing
pub mod Query
pub mod Learner
pub mod Printing
pub mod Freed
