-- ===== src/Policy.antt =====
-- control-plane/src/sdlc/policy/: the client of the policy server, its decisions, and the inputs of
-- the enforcement points.
pub mod Client
pub mod Decision
pub mod Points
