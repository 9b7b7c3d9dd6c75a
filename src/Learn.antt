-- ===== src/Learn.antt =====
-- external/cdnfcore/cdnf.c: the learner of Boolean formulas from membership and equivalence
-- queries. `Teacher` stands for the callbacks, `Bases` for the learner's state, `Walk`, `Refine`
-- and `Core` for its loops; the other modules prove.
pub mod Teacher
pub mod Bases
pub mod Walk
pub mod Refine
pub mod Core
pub mod Points
pub mod Honest
pub mod Counting
pub mod Measure
pub mod Indices
pub mod Rounds
pub mod Total
pub mod Exhaustive
pub mod Sound
pub mod Refined
pub mod Keeps
pub mod Safety
pub mod Accepted
pub mod Unasked
