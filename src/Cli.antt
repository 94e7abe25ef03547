-- ===== src/Cli.antt =====
-- Code that the commands share, crates/ckman/src/commands/mod.rs: errors of the drive and their
-- messages, and the retry with the Admin PIN. A message stands for the text that is printed.
pub mod Effects
pub mod Select
pub mod AdminPin
pub mod Overwrite
pub mod Oath
pub mod Output
pub mod Recovery
pub mod Piv
mod Runs
use canokey_manager.Prelude.{ℕ, Bool, true, false, ◌&&◌, ◌||◌, Option, none, some}

pub data ErrorKind : Type 0 where
  not_found security_status_not_satisfied authentication_failed pin_blocked : ErrorKind
  device_authentication_failed conditions_not_satisfied capability_unknown unsupported_feature
        unsupported_device invalid_response :
      ErrorKind
  other_kind : ℕ → ErrorKind

pub data Phase : Type 0 where
  construction_phase authentication_phase command_phase parsing_phase : Phase

pub data SecretReference : Type 0 where
  admin_pin oath_access : SecretReference
  other_secret : ℕ → SecretReference

pub record ProtocolError : Type 0 where
  pub kind : ErrorKind
  pub phase : Phase
  pub reference : Option SecretReference
  pub retries_remaining : Option ℕ
  pub status_word : Option ℕ

pub data DriveError : Type 0 where
  transport : ℕ → DriveError
  protocol : ProtocolError → DriveError

pub data Message : Type 0 where
  exchange_failed : ℕ → Message
  unrecognized_firmware unsupported_operation : Message
  incorrect_pin : Option ℕ → Message
  admin_pin_is_blocked pin_is_blocked requires_authentication applet_disabled : Message
  protocol_error : ProtocolError → Message

abbrev is_admin_pin : Option SecretReference → Bool
is_admin_pin (some admin_pin) = true
is_admin_pin _ = false

abbrev needs_pin : ErrorKind → Option SecretReference → Bool
needs_pin security_status_not_satisfied reference = true
needs_pin authentication_failed reference = is_admin_pin reference
needs_pin _ reference = false

unfoldable pub needs_admin_pin : DriveError → Bool
needs_admin_pin (transport e) = false
needs_admin_pin (protocol error) = needs_pin error.kind error.reference

abbrev describe_kind : ErrorKind → ProtocolError → Message
describe_kind capability_unknown error = unrecognized_firmware
describe_kind unsupported_feature error = unsupported_operation
describe_kind authentication_failed error = incorrect_pin error.retries_remaining
describe_kind pin_blocked error = elim error.reference [
  | none ↦ pin_is_blocked
  | some admin_pin ↦ admin_pin_is_blocked
  | some oath_access ↦ pin_is_blocked
  | some (other_secret n) ↦ pin_is_blocked
]
describe_kind security_status_not_satisfied error = requires_authentication
describe_kind unsupported_device error = applet_disabled
describe_kind _ error = protocol_error error

unfoldable pub describe_drive_error : DriveError → Message
describe_drive_error (transport e) = exchange_failed e
describe_drive_error (protocol error) = describe_kind error.kind error
