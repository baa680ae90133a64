-- ===== src/Exec/Rules.antt =====
-- Rules for what an action does to the state on every outcome: `Step R m` says that `R` relates
-- the states before and after `m`, and `Meets P m Q E` that from a state with `P` a value comes
-- with `Q`, and every other end leaves `E`.
pub mod Steps
pub mod Triples
pub mod Handlers
pub use Steps.*
pub use Triples.*
pub use Handlers.*
