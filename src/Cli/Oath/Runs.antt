-- ===== src/Cli/Oath/Runs.antt =====
-- Runs of the OATH commands, on a host whose answers are fixed.
use canokey_manager.Prelude.{ℕ, ◌≡◌, refl, true, false, none, some, List, [], ◌∷◌, ◌++◌, Result, ok}
use canokey_manager.Prelude.Text.{codes}
use canokey_manager.Oath.Name.{hotp}
use canokey_manager.Oath.Code.{truncated}
use canokey_manager.Uri.Parse.{OtpAuth, sha1}
use canokey_manager.Cli.Effects.{Guarded, OnlyQuiet, OnlyQuiet_refl}
use canokey_manager.Cli.Oath.{OathError, Entry, modern, Host}
use canokey_manager.Cli.Oath.Hex.{hex_encode, recall_remembered_key}
use canokey_manager.Cli.Oath.Session.{
  Session, Command, remember_if, after_password, ask_and_unlock, with_remembered, unlock,
  select_oath, connect,
}
use canokey_manager.Cli.Oath.Session.Authorised.{IsAuthorised, connect-IsAuthorised}
use canokey_manager.Cli.Oath.Session.Reading.{IsReading}
use canokey_manager.Cli.Oath.Search.{search, described_hits, is_shown, search-described}
use canokey_manager.Cli.Select.{filter}
use canokey_manager.Cli.Oath.Accounts.{AccessArgs}
use canokey_manager.Cli.Oath.Accounts.Add.{add_parsed}
use canokey_manager.Cli.Oath.Accounts.Edit.{accounts_delete, accounts_rename}
use canokey_manager.Cli.Oath.Accounts.Deletion.{IsDeletion, accounts_delete-Guarded}
use canokey_manager.Cli.Oath.Accounts.Renaming.{IsRenaming, accounts_rename-Guarded}
use canokey_manager.Cli.Oath.Accounts.Importing.{IsImport, add_parsed-Guarded}
use canokey_manager.Cli.Oath.Codes.{Row, write_rows, sorted_rows, write_hits}
use canokey_manager.Cli.Oath.Codes.Rows.{WritesNothing, IsWritten, write_rows-IsWritten}
use canokey_manager.Cli.Oath.Codes.Hotp.{IsCounterless, write_hits-Counterless}
use canokey_manager.Cli.Oath.Password.{access_change}
use canokey_manager.Cli.Oath.Password.Entered.{IsHandle, IsPasswordChange, access_change-Guarded}

abbrev mail : Entry
mail = record { name = codes "Example:mail"; algorithm_type = 0x21 }

abbrev web : Entry
web = record { name = codes "Example:web"; algorithm_type = 0x11 }

abbrev accounts : List Entry
accounts = mail ∷ web ∷ []

abbrev a_key : List ℕ
a_key = 1 ∷ 2 ∷ 3 ∷ 4 ∷ 5 ∷ 6 ∷ 7 ∷ 8 ∷ 9 ∷ 10 ∷ 11 ∷ 12 ∷ 13 ∷ 14 ∷ 15 ∷ 16 ∷ []

abbrev accepts : Result (Unit {0}) OathError
accepts = ok tt

-- A card with a password, which accepts every key, and a user who says yes.
abbrev host : Host
host = record {
  derive_key = λ password handle. password ++ handle;
  access_key = λ key. key;
  trim = λ text. text;
  lowercase = λ text. text;
  lossy = λ text. text;
  is_name = λ text. true;
  is_utf8 = λ text. true;
  decimal = λ code. some (codes "123456");
  open_target = λ device reader h. ok (some 7);
  select = λ h. ok (modern (1 ∷ 2 ∷ []) true);
  draw = λ h. ok (9 ∷ []);
  validate = λ access h. accepts;
  list = λ access h. ok accounts;
  change = λ access change h. accepts;
  calculate = λ access credential challenge h. ok (truncated (0 ∷ 0 ∷ 0 ∷ 1 ∷ []));
  challenge_response_hmac = λ slot bytes h. ok bytes;
  keyring_open = λ serial h. true;
  get_password = λ serial h. none;
  write_password = λ serial text h. true;
  delete_credential = λ serial h. true;
  prompt_password = λ prompt h. ok (codes "secret");
  confirm = λ question h. ok true;
  now = λ h. some 59;
  write_line = λ line h. ok tt;
  reset_applet = λ pin h. ok tt;
}

abbrev no_args : AccessArgs
no_args = record { password = none; remember = false }

abbrev opened_session : Session
opened_session = record {
  serial = some 7;
  handle = some (1 ∷ 2 ∷ []);
  key = some (codes "secret" ++ (1 ∷ 2 ∷ []));
}

connect_run : (connect host none none none true []).0 ≡ ok opened_session
unfolding connect select_oath unlock with_remembered ask_and_unlock after_password remember_if
connect_run = refl

connect-IsAuthorised_example :
    IsAuthorised host none opened_session (connect host none none none true []).1
connect-IsAuthorised_example =
    connect-IsAuthorised host none none none true [] opened_session connect_run

accounts_delete-Guarded_example :
    Guarded IsReading
      (IsDeletion host (codes "mail") false)
      []
      (accounts_delete host none none (codes "mail") false no_args [])
accounts_delete-Guarded_example =
    accounts_delete-Guarded host none none (codes "mail") false no_args []

-- The deletion is sent.
delete_run : (accounts_delete host none none (codes "mail") true no_args []).0 ≡ ok tt
unfolding accounts_delete select_oath unlock with_remembered ask_and_unlock after_password
    remember_if
delete_run = refl

accounts_rename-Guarded_example :
    Guarded IsReading
      (IsRenaming host (codes "mail") (codes "Other:post") false)
      []
      (accounts_rename host none none (codes "mail") (codes "Other:post") false no_args [])
accounts_rename-Guarded_example =
    accounts_rename-Guarded host none none (codes "mail") (codes "Other:post") false no_args []

abbrev parsed_uri : OtpAuth
parsed_uri = record {
  kind = hotp;
  issuer = some (codes "Steam");
  account = codes "me";
  secret = 1 ∷ 2 ∷ [];
  algorithm = sha1;
  digits = 5;
  period = 30;
  counter = 42;
}

add_parsed-Guarded_example :
    Guarded IsReading
      (IsImport host parsed_uri false false)
      []
      (add_parsed host none none false false no_args parsed_uri [])
add_parsed-Guarded_example = add_parsed-Guarded host none none false false no_args parsed_uri []

search-described_example :
    search host accounts (codes "a") false
    ≡ described_hits host [] (codes "a") (filter (is_shown host false) accounts)
search-described_example = search-described host accounts (codes "a") false

abbrev one_code : Entry → Command (List ℕ)
one_code entry h = (ok (codes "123456"), h)

abbrev two_rows : List Row
two_rows = sorted_rows host accounts

write_rows-IsWritten_example :
    IsWritten host false 12 one_code two_rows [] (write_rows host false 12 one_code two_rows [])
write_rows-IsWritten_example =
    write_rows-IsWritten host false 12 one_code (λ entry h. OnlyQuiet_refl WritesNothing h) two_rows
      []

write_hits-Counterless_example :
    OnlyQuiet IsCounterless [] (write_hits host opened_session accounts false []).1
write_hits-Counterless_example = write_hits-Counterless host opened_session accounts false refl []

access_change-Guarded_example :
    Guarded IsReading
      (IsPasswordChange host (IsHandle host none none []) false none)
      []
      (access_change host none none none false none true [])
access_change-Guarded_example = access_change-Guarded host none none none false none true []

abbrev untrimmed : List ℕ → List ℕ
untrimmed text = text

remembered : recall_remembered_key untrimmed (some (hex_encode a_key)) ≡ some a_key
unfolding recall_remembered_key hex_encode
remembered = refl

-- A short key is not taken.
not_remembered : recall_remembered_key untrimmed (some (codes "0102")) ≡ none
unfolding recall_remembered_key
not_remembered = refl
