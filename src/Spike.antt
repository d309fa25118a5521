-- ===== src/Spike.antt =====
-- internal/spike: the paper-trading engine on option straddles.
pub mod Types
pub mod Window
pub mod Rules
pub mod Quote
pub mod Engine
pub mod Universe
pub mod Tests
