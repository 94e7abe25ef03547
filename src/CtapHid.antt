-- ===== src/CtapHid.antt =====
-- CTAPHID framing, crates/ckman-transport/src/ctaphid.rs: `Wire` has the constants, the command and
-- status codes and the errors; `Frame` is `frame_message`, `Decoder` the `MessageDecoder` and
-- `Channel` the `CtapHidChannel`.
pub mod Wire
pub mod Frame
pub mod Decoder
pub mod RoundTrip
pub mod Channel
mod Runs
