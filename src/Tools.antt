-- ===== src/Tools.antt =====
-- control-plane/src/sdlc/tools/: the registry of tools, and the tools that keep artifacts, write
-- files, run commands and open pull requests.
pub mod Registry
pub mod Workspace
pub mod Commands
pub mod Effects
pub mod Schema
pub mod Registration
pub mod OpenPr
pub mod Github
pub mod Artifacts
