-- ===== src/Float/Decimal.antt =====
-- An instance of `Float` that can be evaluated: thirty decimal places, one infinity and NaN. It is
-- used to run the program on examples, and it shows that `IsIeee` can be met.
mod Defs
mod Laws
unfoldable pub use Defs.*
pub use Laws.{Decimal-IsIeee}
