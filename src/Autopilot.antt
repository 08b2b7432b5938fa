-- ===== src/Autopilot.antt =====
-- server/src/services/agent: what keeps the autopilot from acting by itself.
pub mod LivePause
pub mod Breaker
