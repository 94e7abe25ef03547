-- ===== src/Cli/Oath/Password.antt =====
-- `reset`, `access_change`, `access_remember`, `access_forget`, `challenge_response` and `info` of
-- crates/ckman/src/commands/oath.rs. An Admin PIN is given or entered once, as `AdminPin` has it.
pub mod Entered
use canokey_manager.Prelude.{
  ℕ, Bool, true, false, not, ◌&&◌, Option, none, some, List, [], ◌∷◌, ◌++◌, leb, length,
  if◌then◌else◌, Result, ok, err, map_err, guard, ok_or,
}
use canokey_manager.Prelude.Text.{codes}
use canokey_manager.Prelude.Bytes.{bytes_eq}
use canokey_manager.Cli.{DriveError, Message, describe_drive_error, needs_admin_pin}
use canokey_manager.Cli.Effects.{Action, ◌>>=◌, pure, fail, event, lift, map_failure, attempt}
use canokey_manager.Cli.Oath.{
  OathError, drive, random, Access, Entry, Credential, CredentialRef, Slot, short, long, Change,
  add, rename, delete, set_default, set_password, clear_password, Question, rename_account,
  delete_account, reset_oath, Prompt, current_password, new_password, repeated_password,
  admin_pin_prompt, Event, connected, selected, drawn, validated, listed, changed, calculated,
  answered, keyring_opened, keyring_read, keyring_deleted, keyring_written, password_asked,
  line_asked, confirmed, clock_read, applet_reset, printed, warned, written, Selected, modern,
  legacy, OathMessage, no_randomness, wrong_password_message, no_mutual_authentication,
  no_such_account, no_password_set, conditions_failed, rejected, conditions_or_touch, drive_message,
  Failure, other_failure, message, no_password_needed, wrong_password_failure, passwords_differ,
  no_password_support, counter_unsupported, counter_zero, generate_with_secret, no_secret_entered,
  period_zero, digits_range, secret_range, name_range, duplicate_account, invalid_secret,
  invalid_uri, no_uri_entered, no_match, aborted, unsupported_kind, only_hotp, no_code,
  invalid_challenge, challenge_too_long, clear_with_new_password, unsupported_pin, before_epoch,
  no_matching_account, zero_period, fault, multiple_matches, unsupported_algorithm, of_account,
  Host, is_wrong_password, describe_oath, wrong_password, describe_calculation,
}
use canokey_manager.Cli.Oath.Hex.{hex_encode, hex_decode}
use canokey_manager.Cli.Oath.Session.{
  Session, Command, with_key, described, to_random, to_other, warn, access_from_key, validate_key,
  access_of, run_typed, run, open_entry, opened, keyring_entry, write_entry, report_stored, store,
  remember_key, recalled, recall_key, forgotten, forget_key, remember_if, unlock_with, ask_password,
  after_password, ask_and_unlock, forget_and_ask, after_remembered, with_remembered, unlock,
  without_password, with_selection, open_target, select_oath, open_oath, connect,
}
use canokey_manager.Cli.Oath.Accounts.{make_change, ask_user, accept_answer, confirm_unless, print}

module _ (host : Host) where
  -- `with_admin_pin_retry` of the reset.
  abbrev reset_with : Option (List ℕ) → Action Event DriveError (Unit {0})
  reset_with pin = event (applet_reset pin) λ h. host.reset_applet pin h

  abbrev pub drive_failure : DriveError → Failure
  drive_failure error = message (drive_message (describe_drive_error error))

  abbrev retry_reset : Result (Unit {0}) DriveError → Command (Unit {0})
  unfolding needs_admin_pin
  retry_reset (ok _) = pure tt
  retry_reset (err error) =
      if needs_admin_pin error
      then (ask_password host admin_pin_prompt >>= λ pin.
          map_failure drive_failure (reset_with (some pin)))
      else fail (drive_failure error)

  unfoldable pub reset_applet : Option (List ℕ) → Command (Unit {0})
  unfolding retry_reset
  reset_applet (some pin) = map_failure drive_failure (reset_with (some pin))
  reset_applet none = attempt (reset_with none) >>= retry_reset

  -- `is_pin` is the test of `Pin::from_bytes`.
  abbrev check_pin : (List ℕ → Bool) → Option (List ℕ) → Command (Unit {0})
  check_pin is_pin none = pure tt
  check_pin is_pin (some pin) = lift (guard (is_pin pin) unsupported_pin)

  abbrev forget_silently : Option ℕ → Command (Unit {0})
  forget_silently none = pure tt
  forget_silently (some serial) =
      event (keyring_opened serial) (λ h. ok (host.keyring_open serial h)) >>= λ there.
      if there then (event (keyring_deleted serial) λ h. ok tt) else pure tt

  unfoldable pub reset :
      (List ℕ → Bool) → Option ℕ → Option (List ℕ) → Bool → Option (List ℕ) → Command (Unit {0})
  unfolding reset_applet
  reset is_pin device reader force admin_pin = open_target host device reader >>= λ serial.
      confirm_unless host force reset_oath >>= λ _. check_pin is_pin admin_pin >>= λ _.
      reset_applet admin_pin >>= λ _. forget_silently serial >>= λ _.
      print (codes "Reset complete. All OATH accounts have been deleted from the CanoKey.")

  -- The new password: given, or entered twice.
  unfoldable pub same_password : List ℕ → List ℕ → Command (List ℕ)
  unfolding bytes_eq
  same_password entered repeated =
      lift (guard (bytes_eq entered repeated) passwords_differ) >>= λ _. pure entered

  unfoldable pub read_new_password : Option (List ℕ) → Command (List ℕ)
  unfolding same_password
  read_new_password (some password) = pure password
  read_new_password none = ask_password host new_password >>= λ entered.
      ask_password host repeated_password >>= λ repeated. same_password entered repeated

  unfoldable pub clear_in_session : Session → Command (Unit {0})
  unfolding make_change forget_key
  clear_in_session session = make_change host session clear_password >>= λ _.
      forget_key host session >>= λ _. print (codes "Password cleared from the CanoKey.")

  -- Storing the new key, or forgetting the old one.
  unfoldable pub update_keyring : Session → List ℕ → Bool → Command (Unit {0})
  unfolding remember_key forget_key
  update_keyring session key true = remember_key host session key
  update_keyring session key false = forget_key host session >>= λ _. pure tt

  unfoldable pub set_in_session : Session → List ℕ → Bool → List ℕ → Command (Unit {0})
  unfolding make_change update_keyring
  set_in_session session handle remember password =
      let key = host.derive_key password handle in
      make_change host session (set_password (host.access_key key)) >>= λ _.
      update_keyring session key remember >>= λ _. print (codes "Password updated.")

  unfoldable pub change_in_session : Option (List ℕ) → Bool → Session → Command (Unit {0})
  unfolding read_new_password set_in_session
  change_in_session given remember session = read_new_password given >>= λ password.
      lift (ok_or session.handle no_password_support) >>= λ handle.
      set_in_session session handle remember password

  abbrev is_given : Option (List ℕ) → Bool
  is_given none = false
  is_given (some text) = true

  unfoldable pub access_change :
      Option ℕ
      → Option (List ℕ)
      → Option (List ℕ)
      → Bool
      → Option (List ℕ)
      → Bool
      → Command (Unit {0})
  unfolding connect clear_in_session change_in_session
  access_change device reader password clear given remember =
      lift (guard (not (clear && is_given given)) clear_with_new_password) >>= λ _.
      connect host device reader password false >>= λ session.
      if clear then clear_in_session session else change_in_session given remember session

  abbrev pub given_or_asked : Option (List ℕ) → Command (List ℕ)
  given_or_asked (some password) = pure password
  given_or_asked none = ask_password host current_password

  unfoldable pub remember_selected : Option ℕ → Option (List ℕ) → Selected → Command (Unit {0})
  unfolding validate_key remember_key wrong_password
  remember_selected serial password legacy = print (codes "This CanoKey is not password protected.")
  remember_selected serial password (modern handle false) =
      print (codes "This CanoKey is not password protected.")
  remember_selected serial password (modern handle true) = given_or_asked password >>= λ password.
      map_failure wrong_password (validate_key host (host.derive_key password handle)) >>= λ _.
      remember_key host (record { serial = serial; handle = some handle; key = none })
        (host.derive_key password handle)

  unfoldable pub access_remember : Option ℕ → Option (List ℕ) → Option (List ℕ) → Command (Unit {0})
  unfolding open_oath remember_selected
  access_remember device reader password =
      open_oath host device reader >>= λ opening. remember_selected opening.0 password opening.1

  unfoldable pub access_forget : Option ℕ → Option (List ℕ) → Command (Unit {0})
  unfolding forget_key
  access_forget device reader = open_target host device reader >>= λ serial.
      forget_key host (record { serial = serial; handle = none; key = none }) >>= λ stored.
      print (
        if stored
        then codes "Password forgotten."
        else codes "No password stored for this CanoKey.")

  unfoldable pub challenge_bytes : List ℕ → Bool → Option (List ℕ)
  unfolding hex_decode
  challenge_bytes challenge true = some challenge
  challenge_bytes challenge false = hex_decode challenge

  unfoldable pub challenge_response :
      Option ℕ → Option (List ℕ) → Slot → List ℕ → Bool → Command (Unit {0})
  unfolding challenge_bytes hex_encode
  challenge_response device reader slot challenge text =
      lift (ok_or (challenge_bytes challenge text) invalid_challenge) >>= λ bytes.
      lift (guard (leb (length bytes) 64) challenge_too_long) >>= λ _.
      open_target host device reader >>= λ serial.
      event (answered slot bytes)
        (λ h. map_err described (host.challenge_response_hmac slot bytes h))
      >>= λ response. print (hex_encode response)
