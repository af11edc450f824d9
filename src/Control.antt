-- ===== src/Control.antt =====
-- The public contracts of agentos/control/plan.go, agentos/control/types.go and
-- agentos/core/types.go that the plan control plane reads and writes.
mod Scalar
mod Spec
mod Status
pub use Scalar.*
pub use Spec.*
pub use Status.*
