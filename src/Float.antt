-- ===== src/Float.antt =====
-- Python's `float`, as an interface, and a concrete type that meets it.
pub mod Interface
pub mod Decimals
pub use Interface.*
