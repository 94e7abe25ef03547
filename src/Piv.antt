-- ===== src/Piv.antt =====
-- crates/ckman-core/src/piv.rs and its attestation policy.
pub mod Tlv
pub mod Pivman
pub mod Management
pub mod PinChange
pub mod Attestation
pub mod Generation
mod Runs
