-- ===== src/Core.antt =====
-- include/tmfqs/core: errors, the arithmetic of amplitudes, state-space sizes and validation.
pub mod Action
pub mod Amplitude
pub mod StateSpace
pub mod Validation
