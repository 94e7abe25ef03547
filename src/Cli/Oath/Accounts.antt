-- ===== src/Cli/Oath/Accounts.antt =====
-- What the commands of crates/ckman/src/commands/oath.rs on accounts share: the list, a change, the
-- question to the user.
pub mod Add
pub mod Edit
pub mod Consent
pub mod Deletion
pub mod Renaming
pub mod Adding
pub mod Importing
use canokey_manager.Prelude.{
  ℕ, ◌-◌, Bool, true, false, not, ◌&&◌, ◌||◌, Option, none, some, List, [], ◌∷◌, ◌++◌, ◌==◌, leb,
  length, if◌then◌else◌, Result, ok, err, map_err, ok_or, guard,
}
use canokey_manager.Prelude.Text.{codes, split_once}
use canokey_manager.Prelude.Bytes.{bytes_eq}
use canokey_manager.Oath.Name.{Kind, hotp, totp, is_totp, parse_name, format_id}
use canokey_manager.Uri.Parse.{Algorithm, OtpAuth, parse}
use canokey_manager.Uri.Base32.{base32_decode, base32_encode}
use canokey_manager.Cli.Effects.{Action, ◌>>=◌, pure, fail, event, lift}
use canokey_manager.Cli.Oath.{
  OathError, drive, random, Access, Entry, Credential, CredentialRef, Slot, short, long, Change,
  add, rename, delete, set_default, set_password, clear_password, Question, rename_account,
  delete_account, reset_oath, Prompt, current_password, new_password, repeated_password, Event,
  connected, selected, drawn, validated, listed, changed, calculated, answered, keyring_opened,
  keyring_read, keyring_deleted, keyring_written, password_asked, line_asked, confirmed, clock_read,
  applet_reset, printed, warned, Selected, modern, legacy, OathMessage, no_randomness,
  wrong_password_message, no_mutual_authentication, no_such_account, no_password_set,
  conditions_failed, rejected, conditions_or_touch, drive_message, Failure, other_failure, message,
  no_password_needed, wrong_password_failure, passwords_differ, no_password_support,
  counter_unsupported, counter_zero, generate_with_secret, no_secret_entered, period_zero,
  digits_range, secret_range, name_range, duplicate_account, invalid_secret, invalid_uri,
  no_uri_entered, no_match, aborted, unsupported_kind, only_hotp, no_code, invalid_challenge,
  challenge_too_long, clear_with_new_password, unsupported_pin, before_epoch, multiple_matches,
  unsupported_algorithm, of_account, Host, is_wrong_password, describe_oath, wrong_password,
  describe_calculation,
}
use canokey_manager.Cli.Oath.Session.{Session, Command, described, to_other, connect, run}
use canokey_manager.Cli.Oath.Search.{kind_of, display_name, search, single_hit}

pub record AccessArgs : Type 0 where
  pub password : Option (List ℕ)
  pub remember : Bool

abbrev pub print : List ℕ → Command (Unit {0})
print text = event (printed text) λ h. ok tt

unfoldable pub any_named : List ℕ → List Entry → Bool
unfolding bytes_eq
any_named id [] = false
any_named id (entry ∷ entries) = bytes_eq entry.name id || any_named id entries

module _ (host : Host) where
  abbrev pub list_request : Option Access → Action Event OathError (List Entry)
  list_request access = event (listed access) λ h. host.list access h

  unfoldable pub list_entries : Session → Command (List Entry)
  unfolding run
  list_entries session = run host session list_request

  abbrev pub change_request : Change → Option Access → Action Event OathError (Unit {0})
  change_request change access = event (changed access change) λ h. host.change access change h

  unfoldable pub make_change : Session → Change → Command (Unit {0})
  unfolding run
  make_change session change = run host session (change_request change)

  unfoldable pub check_unused : List ℕ → List Entry → Command (Unit {0})
  unfolding any_named
  check_unused id entries = lift (guard (not (any_named id entries)) duplicate_account)

  abbrev pub accept_answer : Bool → Command (Unit {0})
  accept_answer accepted = lift (guard accepted aborted)

  abbrev pub ask_user : Question → Command Bool
  ask_user question = event (confirmed question) λ h. to_other (host.confirm question h)

  -- `if !force && !confirm(...)?`
  abbrev pub confirm_unless : Bool → Question → Command (Unit {0})
  confirm_unless true question = pure tt
  confirm_unless false question = ask_user question >>= accept_answer

  abbrev pub check_name : List ℕ → Command (Unit {0})
  check_name name = lift (guard (host.is_name name) name_range)
