-- ===== src/Processes.antt =====
-- wings/processes.py.
pub mod Config
pub mod State
pub mod Status
pub mod Start
pub mod Stop
pub mod Watch
pub mod Framing
pub mod Consistent
pub mod Boot
pub mod Starting
pub mod Shutdown
pub mod Stopped
pub mod Removed
pub mod Threads
pub mod Reach
pub mod Reached
pub mod Limits
pub mod Enforced
pub mod Ports
pub mod Environment
pub mod Launch
pub mod Mounts
pub mod Published
pub mod Sandbox
pub mod Mounted
pub mod Defaults
pub mod Filled
pub mod Java
pub mod Prepared
