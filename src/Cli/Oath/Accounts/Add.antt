-- ===== src/Cli/Oath/Accounts/Add.antt =====
-- `accounts_add`, `accounts_uri` and `add_credential` of crates/ckman/src/commands/oath.rs. The lines
-- that the user enters at a prompt are a list, at whose end the input ends.
use canokey_manager.Prelude.{
  ℕ, ◌-◌, Bool, true, false, not, ◌&&◌, ◌||◌, Option, none, some, List, [], ◌∷◌, ◌++◌, ◌==◌, leb,
  length, if◌then◌else◌, Result, ok, err, map_err, guard,
}
use canokey_manager.Prelude.Text.{codes}
use canokey_manager.Prelude.Bytes.{bytes_eq}
use canokey_manager.Oath.Name.{Kind, hotp, totp, is_totp, format_id}
use canokey_manager.Uri.Parse.{Algorithm, OtpAuth, parse}
use canokey_manager.Uri.Base32.{base32_decode, base32_encode}
use canokey_manager.Cli.Effects.{◌>>=◌, pure, event, lift}
use canokey_manager.Cli.Oath.{
  Credential, add, drawn, line_asked, Failure, other_failure, counter_unsupported, counter_zero,
  generate_with_secret, no_secret_entered, period_zero, digits_range, secret_range, name_range,
  invalid_secret, invalid_uri, no_uri_entered, Host,
}
use canokey_manager.Cli.Oath.Session.{Session, Command, to_other, connect}
use canokey_manager.Cli.Oath.Accounts.{AccessArgs, print, list_entries, make_change, check_unused}

pub record AddInput : Type 0 where
  pub name : List ℕ
  pub secret : Option (List ℕ)
  pub kind : Kind
  pub digits : ℕ
  pub algorithm : Algorithm
  pub counter : ℕ
  pub issuer : Option (List ℕ)
  pub period : ℕ
  pub generate : Bool

-- The arguments of `add_credential` behind the device and the reader.
pub record NewCredential : Type 0 where
  pub new_issuer : Option (List ℕ)
  pub new_name : List ℕ
  pub new_kind : Kind
  pub new_algorithm : Algorithm
  pub new_digits : ℕ
  pub new_period : ℕ
  pub new_counter : ℕ
  pub new_secret : List ℕ
  pub generated : Bool
  pub touch : Bool
  pub force : Bool
  pub args : AccessArgs

unfoldable pub uri_initial_counter : Kind → ℕ → Result ℕ Failure
uri_initial_counter hotp counter = if counter == 0 then err counter_zero else ok (counter - 1)
uri_initial_counter totp counter = if counter == 0 then ok 0 else err counter_unsupported

-- The conditions at the head of `add_credential`.
unfoldable pub check_fields : NewCredential → Result (Unit {0}) Failure
unfolding is_totp
check_fields new =
    if is_totp new.new_kind && new.new_period == 0
    then err period_zero
    else if is_totp new.new_kind && not (new.new_counter == 0)
    then err counter_unsupported
    else if not (leb 4 new.new_digits && leb new.new_digits 8)
    then err digits_range
    else guard (leb 1 (length new.new_secret) && leb (length new.new_secret) 64) secret_range

unfoldable pub id_of : NewCredential → List ℕ
unfolding format_id
id_of new = format_id new.new_issuer new.new_name new.new_kind new.new_period

unfoldable pub credential_of : NewCredential → Credential
unfolding id_of
credential_of new = record {
  credential_name = id_of new;
  kind = new.new_kind;
  algorithm = new.new_algorithm;
  digits = new.new_digits;
  secret = new.new_secret;
  require_touch = new.touch;
  increasing = false;
  initial_counter = new.new_counter;
}

abbrev pub from_uri : OtpAuth → ℕ → Bool → Bool → AccessArgs → NewCredential
from_uri parsed counter touch force args = record {
  new_issuer = parsed.issuer;
  new_name = parsed.account;
  new_kind = parsed.kind;
  new_algorithm = parsed.algorithm;
  new_digits = parsed.digits;
  new_period = parsed.period;
  new_counter = counter;
  new_secret = parsed.secret;
  generated = false;
  touch = touch;
  force = force;
  args = args;
}

unfoldable pub is_steam : Option (List ℕ) → Bool
unfolding bytes_eq
is_steam none = false
is_steam (some issuer) = bytes_eq issuer (codes "Steam")

-- A Steam URI has five digits, for what is computed with six.
unfoldable pub adjust_steam : OtpAuth → OtpAuth
unfolding is_steam
adjust_steam parsed =
    if parsed.digits == 5 && is_steam parsed.issuer then record parsed { digits = 6 } else parsed

-- The new name, split at the first colon.
module _ (host : Host) where
  unfoldable pub check_duplicate : Session → NewCredential → Bool → Command (Unit {0})
  unfolding list_entries check_unused id_of
  check_duplicate session new true = pure tt
  check_duplicate session new false = list_entries host session >>= check_unused host (id_of new)

  unfoldable pub report_added : NewCredential → Bool → Command (Unit {0})
  unfolding base32_encode
  report_added new false = print (codes "Account added.")
  report_added new true = print (codes "Account added.") >>= λ _.
      print (codes "Generated credential secret (base32): " ++ base32_encode new.new_secret)

  unfoldable pub add_in_session : NewCredential → Session → Command (Unit {0})
  unfolding check_duplicate make_change credential_of report_added
  add_in_session new session = check_duplicate session new new.force >>= λ _.
      make_change host session (add (credential_of new)) >>= λ _. report_added new new.generated

  unfoldable pub add_credential : Option ℕ → Option (List ℕ) → NewCredential → Command (Unit {0})
  unfolding check_fields id_of connect add_in_session
  add_credential device reader new = lift (check_fields new) >>= λ _.
      lift (guard (host.is_name (id_of new)) name_range) >>= λ _.
      connect host device reader new.args.password new.args.remember >>= add_in_session new

  -- `loop`: lines are asked for until one is read as a value, or the input ends.
  unfoldable pub ask_until :
      {A : Type 0} → (List ℕ → Option A) → Failure → List (Result (List ℕ) ℕ) → Command A
  ask_until read missing [] = event line_asked λ h. err missing
  ask_until read missing (err code ∷ lines) = event line_asked λ h. err (other_failure code)
  ask_until read missing (ok text ∷ lines) =
      let again = ask_until read missing lines in
      event line_asked (λ h. ok tt) >>= λ _. elim (read text) [
        | some a ↦ pure a
        | none ↦ print (codes "invalid") >>= λ _. again
      ]

  abbrev to_option : {A E : Type 0} → Result A E → Option A
  to_option (ok a) = some a
  to_option (err e) = none

  -- The secret, and whether it was generated.
  unfoldable pub secret_of :
      Option (List ℕ) → Bool → List (Result (List ℕ) ℕ) → Command (List ℕ × Bool)
  unfolding base32_decode ask_until
  secret_of (some text) generate lines =
      lift (map_err (λ e. invalid_secret) (base32_decode text)) >>= λ secret. pure (secret, false)
  secret_of none true lines =
      event (drawn 20) (λ h. to_other (host.draw h)) >>= λ secret. pure (secret, true)
  secret_of none false lines =
      ask_until (λ text. to_option (base32_decode text)) no_secret_entered lines >>= λ secret.
      pure (secret, false)

  abbrev has_secret : Option (List ℕ) → Bool
  has_secret none = false
  has_secret (some text) = true

  unfoldable pub accounts_add :
      Option ℕ
      → Option (List ℕ)
      → AddInput
      → Bool
      → Bool
      → AccessArgs
      → List (Result (List ℕ) ℕ)
      → Command (Unit {0})
  unfolding secret_of add_credential is_totp
  accounts_add device reader input touch force args lines =
      lift (guard (input.counter == 0 || not (is_totp input.kind)) counter_unsupported) >>= λ _.
      lift (guard (not (input.generate && has_secret input.secret)) generate_with_secret) >>= λ _.
      secret_of input.secret input.generate lines >>= λ found.
      add_credential device reader (record {
        new_issuer = input.issuer;
        new_name = input.name;
        new_kind = input.kind;
        new_algorithm = input.algorithm;
        new_digits = input.digits;
        new_period = input.period;
        new_counter = input.counter;
        new_secret = found.0;
        generated = found.1;
        touch = touch;
        force = force;
        args = args;
      })

  unfoldable pub read_uri : Option (List ℕ) → List (Result (List ℕ) ℕ) → Command OtpAuth
  unfolding parse ask_until
  read_uri (some text) lines = lift (map_err (λ e. invalid_uri) (parse host.trim host.is_utf8 text))
  read_uri none lines =
      ask_until (λ text. to_option (parse host.trim host.is_utf8 text)) no_uri_entered lines

  unfoldable pub add_parsed :
      Option ℕ → Option (List ℕ) → Bool → Bool → AccessArgs → OtpAuth → Command (Unit {0})
  unfolding uri_initial_counter adjust_steam add_credential
  add_parsed device reader touch force args parsed =
      lift (uri_initial_counter parsed.kind parsed.counter) >>= λ counter.
      add_credential device reader (from_uri (adjust_steam parsed) counter touch force args)

  unfoldable pub accounts_uri :
      Option ℕ
      → Option (List ℕ)
      → Option (List ℕ)
      → Bool
      → Bool
      → AccessArgs
      → List (Result (List ℕ) ℕ)
      → Command (Unit {0})
  unfolding read_uri add_parsed
  accounts_uri device reader uri_arg touch force args lines =
      read_uri uri_arg lines >>= add_parsed device reader touch force args
