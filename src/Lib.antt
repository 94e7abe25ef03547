-- ===== src/Lib.antt =====
-- A verification library for ckman, the command-line manager of CanoKey security keys: a Rust
-- workspace whose crates talk to a key over CTAPHID reports or smart-card APDUs and run operations of
-- the `canokey` protocol library on it.
--
-- Parts and files. Paths are from the repository's root.
--   Prelude/*      shared names, Boolean tests, lists, results, bytes, texts and decimal numbers
--   CtapHid/*      crates/ckman-transport/src/ctaphid.rs: Wire (constants, commands, device errors),
--                  Frame (`frame_message`), Decoder (`MessageDecoder::push`), Channel (`allocate`,
--                  `request`, `cancel` and their loops over a script of arrivals). A report is a
--                  list of bytes
--   Fido/*         crates/ckman-core/src/fido.rs: `CtapHidAdapter::exchange`, `normalize_pin`,
--                  `validate_large_blob_array`; the request of the channel is a parameter of the
--                  adapter, a function from the message that it sends, and Fido/Channel gives it
--                  the `request` of CtapHid
--   Uri/*          crates/ckman-core/src/uri.rs: Base32 (`base32_decode`, `base32_encode`), Parse
--                  (`percent_decode`, `parse`)
--   Oath/*         crates/ckman-core/src/oath.rs: Name (`parse_name`, `format_id`), Code
--                  (`totp_challenge`, `steam_code`)
--   OpenPgp        `key_information` of crates/ckman-core/src/openpgp.rs
--   X509           `rsa_pkcs1v15_encode` and `signature_algorithm` of crates/ckman-core/src/x509.rs
--   Piv/*          crates/ckman-core/src/piv.rs: Tlv (the SDK's reader and writer as a parameter),
--                  Pivman (`PivmanData`, `PivmanProtectedData`), Management
--                  (`set_management_key_synced` on them), PinChange (`change_pin_synced`),
--                  Generation (`validate_generation_slots`);
--                  crates/ckman-core/src/piv/attestation.rs: Attestation
--   Cli/*          crates/ckman/src/commands/mod.rs: `Cli` (messages), AdminPin
--                  (`with_admin_pin_retry`), Select (`single_target` and what it calls); Overwrite is
--                  crates/ckman/src/commands/piv/overwrite.rs; Output is `PreparedFile` of
--                  crates/ckman/src/commands/output.rs, Recovery crates/ckman/src/commands/piv_recovery.rs
--   Cli/Oath/*     crates/ckman/src/commands/oath.rs: Hex, Session (`OathSession`), Search, Accounts
--                  (Add for add and uri, Edit for rename, set-default, delete), Codes (code, list), Password (access
--                  commands, reset, challenge-response), all actions of Cli/Effects
--   Cli/Piv        crates/ckman/src/commands/piv.rs: `PivSession` (the management key and the PIN)
--                  and the names of slots (Slots)
--   Driver/*       `execute` of crates/ckman-core/src/lib.rs
-- A `Runs` module holds tests and the theorems at concrete values. Files with definitions have the
-- source's function names; a loop body or an arm of a `match` is a function of its own.
--
-- State. The decoder and the adapter pass their state explicitly. What a device or a reader answers is
-- a script (`Arrival`) or a function of what was sent before (`Card`); a card operation is an action
-- that returns or fails and extends the history of commands. A command of the tool (Cli/Effects)
-- extends the history of all its events, and Host answers them; a file command has the files, all
-- states of them that it passed through, and the calls. Errors are values with the variants of
-- the source; texts that are only shown are constructors.
--
-- Numbers are natural; 32- and 64-bit arithmetic has its wrap-around written out. Texts are lists of
-- bytes. There are two kinds of fuel. The loop over the fields of ADMIN DATA has one more than the
-- length of the value, enough since a field is shorter than the bytes that it is read from. `execute`
-- has more than the distance of the operation to its end, which every accepted answer shortens. The
-- eight attempts to find a free file name are the source's own count. The loops of the
-- channel recurse on the script of arrivals, which stands for the reads up to the deadline.
--
-- Parameters, since their code is not in the repository: the TLV codec (`Tlv`), card answers,
-- X.509/DER decoders, P-256, SHA-2, UTF-8 and NFC, `to_lowercase`, `trim`, PC/SC connections and profiles.
-- The writer of the codec does not fail in the model; the source unwraps its pushes.
-- In Attestation the name that `parse_rfc4514` gives is a parameter as well.
--
-- Not modelled: USB and PC/SC enumeration, the argument parser, the other commands, key and
-- certificate file parsing, the thin wrappers that only build one SDK operation, and man-page
-- generation.
pub mod Prelude
pub mod Cli
pub mod CtapHid
pub mod X509
pub mod Uri
pub mod Driver
pub mod Fido
pub mod Oath
pub mod OpenPgp
pub mod Piv
