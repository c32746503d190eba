-- ===== src/Observability.antt =====
-- agent/observability.py: the registry of metrics, the audit trail, and the sink of decisions.
pub mod Registry
pub mod Audit
pub mod Sink
pub mod Balance
pub mod Rotation
pub mod Render
pub mod Exposition
pub mod Sorted
pub mod Headers
pub mod Quantile
mod Tests
unfoldable pub use Registry.*
unfoldable pub use Audit.*
unfoldable pub use Sink.*
