-- ===== src/Uri.antt =====
-- crates/ckman-core/src/uri.rs: the base32 codec of account secrets and the otpauth URI parser.
pub mod Base32
pub mod Parse
