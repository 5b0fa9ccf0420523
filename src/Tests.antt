-- ===== src/Tests.antt =====
-- Concrete runs of the program's operations.
mod Listening
mod Registry
mod Running
mod Images
mod Files
mod Frames
mod Logging
mod Manifests
mod Updates
mod Watching
mod Launching
mod Serving
mod Signing
mod Sessions
mod Eggs
mod Caching
