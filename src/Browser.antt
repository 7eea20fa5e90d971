-- ===== src/Browser.antt =====
-- utils.py: the launch of Chrome, with the extension that signs in to its proxy.
pub mod Agent
pub mod Cleanup
pub mod Directories
pub mod Extension
pub mod Json
pub mod Launch
pub mod Literal
pub mod Run
pub mod Server
pub mod Measure
pub mod Handle
mod Tests
pub mod Worker
