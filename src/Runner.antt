-- ===== src/Runner.antt =====
-- control-plane/src/sdlc/runner/: capability tokens, the registry of runs, and the executor.
pub mod Capability
pub mod Registry
pub mod Executor
