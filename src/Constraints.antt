-- ===== src/Constraints.antt =====
-- controller/constraints: the activation constraints of controllers and components.
mod Tests
pub mod Activation
pub mod Context
pub mod Rules
