-- ===== src/Cli/Oath/Session.antt =====
-- `OathSession` of crates/ckman/src/commands/oath.rs: connecting, the access key, the keyring.
pub mod Authorised
pub mod Handle
pub mod Reading
use canokey_manager.Prelude.{
  ℕ, Bool, true, false, Option, none, some, List, [], ◌∷◌, if◌then◌else◌, Result, ok, err, map_err,
}
use canokey_manager.Prelude.Text.{codes}
use canokey_manager.Cli.Effects.{Action, ◌>>=◌, ◌>>◌, pure, fail, event, map_failure, attempt}
use canokey_manager.Cli.Oath.{
  OathError, random, Access, Failure, other_failure, message, no_password_needed, OathMessage,
  Event, connected, selected, drawn, validated, keyring_opened, keyring_read, keyring_deleted,
  keyring_written, Prompt, current_password, password_asked, warned, Selected, modern, legacy, Host,
  is_wrong_password, wrong_password, describe_oath,
}
use canokey_manager.Cli.Oath.Hex.{hex_encode, recall_remembered_key}

pub record Session : Type 0 where
  pub serial : Option ℕ
  pub handle : Option (List ℕ)
  pub key : Option (List ℕ)

abbrev pub Command : Type 0 → Type 0
Command A = Action Event Failure A

abbrev pub with_key : Session → List ℕ → Session
with_key session key = record session { key = some key }

abbrev pub described : OathError → Failure
described error = message (describe_oath error)

abbrev pub to_random : {A : Type 0} → Result A ℕ → Result A OathError
to_random r = map_err random r

abbrev pub to_other : {A : Type 0} → Result A ℕ → Result A Failure
to_other r = map_err other_failure r

abbrev pub warn : List ℕ → Command (Unit {0})
warn text = event (warned text) λ h. ok tt

module _ (host : Host) where
  -- `access_from_key`: a fresh challenge.
  unfoldable pub access_from_key : List ℕ → Action Event OathError Access
  access_from_key derived = event (drawn 8) (λ h. to_random (host.draw h)) >>= λ challenge.
      pure (record { access_key = derived; challenge = challenge })

  unfoldable pub validate_key : List ℕ → Action Event OathError (Unit {0})
  unfolding access_from_key
  validate_key key = access_from_key (host.access_key key) >>= λ access.
      event (validated access) (λ h. host.validate access h)

  unfoldable pub access_of : Option (List ℕ) → Action Event OathError (Option Access)
  unfolding access_from_key
  access_of none = pure none
  access_of (some key) = access_from_key (host.access_key key) >>= λ access. pure (some access)

  -- An operation is given the access that a fresh challenge makes of the session's key.
  unfoldable pub run_typed :
      {A : Type 0} → Session → (Option Access → Action Event OathError A) → Action Event OathError A
  unfolding access_of
  run_typed session operation = access_of session.key >>= operation

  unfoldable pub run :
      {A : Type 0} → Session → (Option Access → Action Event OathError A) → Command A
  unfolding run_typed describe_oath
  run session operation = map_failure described (run_typed session operation)

  -- `keyring_entry`: whether there is one.
  abbrev pub open_entry : ℕ → Command Bool
  open_entry serial = event (keyring_opened serial) λ h. ok (host.keyring_open serial h)

  abbrev pub opened : ℕ → Bool → Command (Option ℕ)
  opened serial true = pure (some serial)
  opened serial false = warn (codes "system keyring unavailable") >> pure none

  unfoldable pub keyring_entry : Option ℕ → Command (Option ℕ)
  keyring_entry none = pure none
  keyring_entry (some serial) = open_entry serial >>= opened serial

  abbrev pub write_entry : ℕ → List ℕ → Command Bool
  write_entry serial text =
      event (keyring_written serial text) λ h. ok (host.write_password serial text h)

  abbrev pub report_stored : Bool → Command (Unit {0})
  report_stored stored =
      warn (if stored then codes "Password remembered." else codes "could not store password")

  abbrev pub store : List ℕ → Option ℕ → Command (Unit {0})
  store key none = warn (codes "no readable serial number; password not remembered")
  store key (some serial) = write_entry serial (hex_encode key) >>= report_stored

  unfoldable pub remember_key : Session → List ℕ → Command (Unit {0})
  unfolding keyring_entry hex_encode
  remember_key session key = keyring_entry session.serial >>= store key

  abbrev pub recalled : Option ℕ → Command (Option (List ℕ))
  recalled none = pure none
  recalled (some serial) =
      event (keyring_read serial)
        λ h. ok (recall_remembered_key host.trim (host.get_password serial h))

  unfoldable pub recall_key : Session → Command (Option (List ℕ))
  unfolding keyring_entry recall_remembered_key
  recall_key session = keyring_entry session.serial >>= recalled

  abbrev pub forgotten : Option ℕ → Command Bool
  forgotten none = pure false
  forgotten (some serial) = event (keyring_deleted serial) λ h. ok (host.delete_credential serial h)

  unfoldable pub forget_key : Session → Command Bool
  unfolding keyring_entry
  forget_key session = keyring_entry session.serial >>= forgotten

  unfoldable pub remember_if : Bool → Session → List ℕ → Command (Unit {0})
  unfolding remember_key
  remember_if true session key = remember_key session key
  remember_if false session key = pure tt

  -- Both the password of the command line and that of the prompt come here.
  unfoldable pub unlock_with : Session → List ℕ → List ℕ → Bool → Command Session
  unfolding validate_key wrong_password remember_key
  unlock_with session handle password remember =
      let key = host.derive_key password handle in
      map_failure wrong_password (validate_key key) >>= λ _.
      remember_if remember session key >>= λ _. pure (with_key session key)

  abbrev pub ask_password : Prompt → Command (List ℕ)
  ask_password prompt = event (password_asked prompt) λ h. to_other (host.prompt_password prompt h)

  unfoldable pub after_password : Session → List ℕ → Bool → List ℕ → Command Session
  unfolding unlock_with
  after_password session handle remember password = unlock_with session handle password remember

  unfoldable pub ask_and_unlock : Session → List ℕ → Bool → Command Session
  unfolding unlock_with
  ask_and_unlock session handle remember =
      ask_password current_password >>= after_password session handle remember

  -- Forgets the key and falls through to the prompt.
  unfoldable pub forget_and_ask : Session → List ℕ → Bool → Command Session
  unfolding forget_key ask_and_unlock
  forget_and_ask session handle remember =
      forget_key session >>= λ _. ask_and_unlock session handle remember

  unfoldable pub after_remembered :
      Session → List ℕ → Bool → List ℕ → Result (Unit {0}) OathError → Command Session
  unfolding is_wrong_password describe_oath
  after_remembered session handle remember key (ok _) = pure (with_key session key)
  after_remembered session handle remember key (err error) =
      if is_wrong_password error
      then forget_and_ask session handle remember
      else fail (described error)

  unfoldable pub with_remembered : Session → List ℕ → Bool → Option (List ℕ) → Command Session
  unfolding validate_key
  with_remembered session handle remember none = ask_and_unlock session handle remember
  with_remembered session handle remember (some key) =
      attempt (validate_key key) >>= after_remembered session handle remember key

  unfoldable pub unlock : Session → List ℕ → Option (List ℕ) → Bool → Command Session
  unfolding recall_key
  unlock session handle (some password) remember = unlock_with session handle password remember
  unlock session handle none remember =
      recall_key session >>= with_remembered session handle remember

  abbrev pub without_password : Session → Option (List ℕ) → Command Session
  without_password session (some password) = fail no_password_needed
  without_password session none = pure session

  abbrev pub with_selection : Option ℕ → Option (List ℕ) → Bool → Selected → Command Session
  with_selection serial password remember legacy =
      without_password (record { serial = serial; handle = none; key = none }) password
  with_selection serial password remember (modern handle false) =
      without_password (record { serial = serial; handle = some handle; key = none }) password
  with_selection serial password remember (modern handle true) =
      unlock (record { serial = serial; handle = some handle; key = none }) handle password remember

  abbrev pub open_target : Option ℕ → Option (List ℕ) → Command (Option ℕ)
  open_target device reader =
      event (connected device reader) λ h. to_other (host.open_target device reader h)

  unfoldable pub select_oath : Command Selected
  unfolding describe_oath
  select_oath = event selected λ h. map_err described (host.select h)

  -- `Pcsc::establish` and `single_target`, then `oath::select`.
  unfoldable pub open_oath : Option ℕ → Option (List ℕ) → Command (Option ℕ × Selected)
  open_oath device reader =
      open_target device reader >>= λ serial. select_oath >>= λ selection. pure (serial, selection)

  unfoldable pub connect : Option ℕ → Option (List ℕ) → Option (List ℕ) → Bool → Command Session
  unfolding open_oath
  connect device reader password remember =
      open_oath device reader >>= λ opening. with_selection opening.0 password remember opening.1
