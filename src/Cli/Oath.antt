-- ===== src/Cli/Oath.antt =====
-- The OATH commands, crates/ckman/src/commands/oath.rs. A command is an action: it extends the list
-- of events (exchanges with the card, random draws, keyring accesses, prompts, lines printed). Host
-- answers each event, and its answers may depend on the events before. The calls of the core's oath
-- module that only pass a request to the SDK are the host's, with their results.
pub mod Hex
pub mod Session
pub mod Search
pub mod Accounts
pub mod Codes
pub mod Password
mod Runs
use canokey_manager.Prelude.{
  ℕ, Bool, true, false, not, ◌&&◌, Option, none, some, List, if◌then◌else◌, Result,
}
use canokey_manager.Oath.Name.{Kind, hotp, totp}
use canokey_manager.Oath.Code.{Code}
use canokey_manager.Uri.Parse.{Algorithm}
use canokey_manager.Cli.{
  ErrorKind, authentication_failed, device_authentication_failed, not_found,
  conditions_not_satisfied, security_status_not_satisfied, Phase, authentication_phase,
  command_phase, SecretReference, oath_access, ProtocolError, DriveError, transport, protocol,
  Message, describe_drive_error,
}

-- `Random` is the failure of the host's random numbers, before anything is sent.
pub data OathError : Type 0 where
  drive : DriveError → OathError
  random : ℕ → OathError

pub record Access : Type 0 where
  pub access_key : List ℕ
  pub challenge : List ℕ

pub record Entry : Type 0 where
  pub name : List ℕ
  pub algorithm_type : ℕ

pub record Credential : Type 0 where
  pub credential_name : List ℕ
  pub kind : Kind
  pub algorithm : Algorithm
  pub digits : ℕ
  pub secret : List ℕ
  pub require_touch : Bool
  pub increasing : Bool
  pub initial_counter : ℕ

pub record CredentialRef : Type 0 where
  pub ref_name : List ℕ
  pub ref_kind : Kind
  pub ref_algorithm : Algorithm

pub data Slot : Type 0 where
  short long : Slot

-- The requests that change the card.
pub data Change : Type 0 where
  add : Credential → Change
  rename : List ℕ → List ℕ → Change
  delete : List ℕ → Change
  set_default : Slot → Bool → List ℕ → Change
  set_password : List ℕ → Change
  clear_password : Change

pub data Question : Type 0 where
  rename_account delete_account : List ℕ → Question
  reset_oath : Question

pub data Prompt : Type 0 where
  current_password new_password repeated_password admin_pin_prompt : Prompt

pub data Event : Type 0 where
  connected : Option ℕ → Option (List ℕ) → Event
  selected : Event
  drawn : ℕ → Event
  validated : Access → Event
  listed : Option Access → Event
  changed : Option Access → Change → Event
  calculated : Option Access → CredentialRef → Option (List ℕ) → Event
  answered : Slot → List ℕ → Event
  keyring_opened keyring_read keyring_deleted : ℕ → Event
  keyring_written : ℕ → List ℕ → Event
  password_asked : Prompt → Event
  line_asked : Event
  confirmed : Question → Event
  clock_read : Event
  applet_reset : Option (List ℕ) → Event
  printed warned written : List ℕ → Event

-- A modern selection has a handle and, where a password is set, a challenge.
pub data Selected : Type 0 where
  modern : List ℕ → Bool → Selected
  legacy : Selected

pub data OathMessage : Type 0 where
  no_randomness : ℕ → OathMessage
  wrong_password_message no_mutual_authentication no_such_account no_password_set : OathMessage
  conditions_failed : OathMessage
  rejected conditions_or_touch : Kind → OathMessage
  drive_message : Message → OathMessage

pub data Failure : Type 0 where
  other_failure : ℕ → Failure
  message : OathMessage → Failure
  no_password_needed wrong_password_failure passwords_differ no_password_support : Failure
  counter_unsupported counter_zero generate_with_secret no_secret_entered period_zero : Failure
  digits_range secret_range name_range duplicate_account invalid_secret invalid_uri : Failure
  no_uri_entered no_match aborted unsupported_kind only_hotp no_code invalid_challenge : Failure
  challenge_too_long clear_with_new_password unsupported_pin before_epoch : Failure
  no_matching_account zero_period fault : Failure
  multiple_matches : List Entry → Failure
  unsupported_algorithm : ℕ → Failure
  of_account : List ℕ → Failure → Failure

-- The answers to the events, given those before, and functions of libraries: `derive_key_bytes` and
-- `access_key` are of the SDK, `trim`, `lowercase` and `lossy` `str::trim`, `str::to_lowercase` and
-- `String::from_utf8_lossy`, `is_utf8` the test of
-- `str::from_utf8`, and `is_name` that of the SDK's `Name::from_bytes`.
pub record Host : Type 0 where
  pub derive_key : List ℕ → List ℕ → List ℕ
  pub access_key : List ℕ → List ℕ
  pub trim : List ℕ → List ℕ
  pub lowercase : List ℕ → List ℕ
  pub lossy : List ℕ → List ℕ
  pub is_name : List ℕ → Bool
  pub is_utf8 : List ℕ → Bool
  pub decimal : Code → Option (List ℕ)
  pub open_target : Option ℕ → Option (List ℕ) → List Event → Result (Option ℕ) ℕ
  pub select : List Event → Result Selected OathError
  pub draw : List Event → Result (List ℕ) ℕ
  pub validate : Access → List Event → Result (Unit {0}) OathError
  pub list : Option Access → List Event → Result (List Entry) OathError
  pub change : Option Access → Change → List Event → Result (Unit {0}) OathError
  pub calculate :
      Option Access → CredentialRef → Option (List ℕ) → List Event → Result Code OathError
  pub challenge_response_hmac : Slot → List ℕ → List Event → Result (List ℕ) OathError
  pub keyring_open : ℕ → List Event → Bool
  pub get_password : ℕ → List Event → Option (List ℕ)
  pub write_password : ℕ → List ℕ → List Event → Bool
  pub delete_credential : ℕ → List Event → Bool
  pub prompt_password : Prompt → List Event → Result (List ℕ) ℕ
  pub confirm : Question → List Event → Result Bool ℕ
  pub now : List Event → Option ℕ
  pub write_line : List ℕ → List Event → Result (Unit {0}) ℕ
  pub reset_applet : Option (List ℕ) → List Event → Result (Unit {0}) DriveError

abbrev is_oath_access : Option SecretReference → Bool
is_oath_access (some oath_access) = true
is_oath_access _ = false

abbrev is_authentication_failed : ErrorKind → Bool
is_authentication_failed authentication_failed = true
is_authentication_failed _ = false

unfoldable pub is_wrong_password : OathError → Bool
is_wrong_password (drive (protocol error)) =
    is_authentication_failed error.kind && is_oath_access error.reference
is_wrong_password _ = false

abbrev has_no_status : Phase → Option ℕ → Bool
has_no_status authentication_phase none = true
has_no_status _ _ = false

abbrev describe_protocol : ErrorKind → ProtocolError → OathMessage
describe_protocol authentication_failed error = wrong_password_message
describe_protocol device_authentication_failed error = no_mutual_authentication
describe_protocol not_found error = no_such_account
describe_protocol conditions_not_satisfied error =
    if has_no_status error.phase error.status_word then no_password_set else conditions_failed
describe_protocol _ error = drive_message (describe_drive_error (protocol error))

unfoldable pub describe_oath : OathError → OathMessage
describe_oath (random code) = no_randomness code
describe_oath (drive (protocol error)) = describe_protocol error.kind error
describe_oath (drive (transport code)) = drive_message (describe_drive_error (transport code))

unfoldable pub wrong_password : OathError → Failure
unfolding is_wrong_password describe_oath
wrong_password error =
    if is_wrong_password error then wrong_password_failure else message (describe_oath error)

abbrev describe_command : ErrorKind → OathError → Kind → OathMessage
describe_command security_status_not_satisfied error kind = rejected kind
describe_command conditions_not_satisfied error kind = conditions_or_touch kind
describe_command _ error kind = describe_oath error

abbrev describe_in_phase : Phase → ErrorKind → OathError → Kind → OathMessage
describe_in_phase command_phase k error kind = describe_command k error kind
describe_in_phase _ k error kind = describe_oath error

unfoldable pub describe_calculation : OathError → Kind → OathMessage
unfolding describe_oath
describe_calculation (drive (protocol error)) kind =
    describe_in_phase error.phase error.kind (drive (protocol error)) kind
describe_calculation error kind = describe_oath error
