-- ===== src/Float.antt =====
-- What the program does with a Python `float`: an interface, since the arithmetic of IEEE 754
-- doubles is the platform's. `Laws` states what IEEE 754 documents of it, and `Decimal` is an
-- instance that can be evaluated.
mod Interface
pub mod Laws
pub mod Decimal
unfoldable pub use Interface.*
