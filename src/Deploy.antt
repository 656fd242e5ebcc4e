-- ===== src/Deploy.antt =====
-- control-plane/src/sdlc/deploy_verify/: the candidate of a release, its evidence bundle, and the
-- verification before deployment.
pub mod Candidate
pub mod Bundle
pub mod Verify
