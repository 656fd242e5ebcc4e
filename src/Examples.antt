-- ===== src/Examples.antt =====
-- Runs of the model at concrete inputs, and the theorems applied to them. Nothing here models code.
pub mod World
pub mod Tokens
pub mod Calls
pub mod Commands
pub mod Storage
pub mod Waivers
pub mod Bridge
pub mod Roles
pub mod Releases
pub mod Tools
pub mod Reviews
pub mod Rendering
pub mod Serving
pub mod Artifacts
pub mod Writes
pub mod Pipelines
pub mod Github
