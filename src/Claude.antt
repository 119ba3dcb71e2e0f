-- ===== src/Claude.antt =====
-- internal/driver/claude: the driver for the Messages API.
pub mod Wire
pub mod Loop
pub mod Cases
pub mod Follows
pub mod Dialogue
pub mod Protocol
pub mod Ends
mod Tests
