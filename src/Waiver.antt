-- ===== src/Waiver.antt =====
-- control-plane/src/sdlc/waiver/: the rules by which a finding blocks or is waived.
pub mod Enforcement
