-- ===== src/Oath.antt =====
-- crates/ckman-core/src/oath.rs: names of credentials, TOTP time steps and Steam codes.
pub mod Name
pub mod Code
mod Runs
