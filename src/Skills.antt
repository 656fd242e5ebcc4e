-- ===== src/Skills.antt =====
-- control-plane/src/sdlc/skills/ and llm/base.py: role skills over a model that is not trusted.
pub mod Base
pub mod Roles
pub mod Defaults
pub mod Stub
pub mod Contract
pub mod Runner
