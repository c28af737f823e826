-- ===== src/Bird.antt =====
-- pkg/bird: the configuration of the bird routing daemon, its process, and the policy rules that
-- send what the addresses of the gateway answer through the table of bird.
pub mod Gateway
pub mod Template
pub mod Configuration
pub mod Rules
pub mod Process
pub mod Vips
pub mod Plan
pub mod Nets
pub mod Loops
pub mod Exact
pub mod Locking
mod Tests
