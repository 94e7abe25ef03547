-- ===== src/Cli/Oath/Accounts/Edit.antt =====
-- `accounts_delete`, `accounts_rename` and `accounts_set_default` of crates/ckman/src/commands/oath.rs.
use canokey_manager.Prelude.{ℕ, Bool, true, false, Option, none, some, List, ◌++◌, ok_or, guard}
use canokey_manager.Prelude.Text.{codes, split_once}
use canokey_manager.Oath.Name.{Kind, hotp, totp, parse_name, format_id}
use canokey_manager.Cli.Effects.{◌>>=◌, lift}
use canokey_manager.Cli.Oath.{
  Entry, Slot, short, long, rename, delete, set_default, rename_account, delete_account,
  unsupported_kind, only_hotp, Host,
}
use canokey_manager.Cli.Oath.Session.{Session, Command, connect}
use canokey_manager.Cli.Oath.Search.{kind_of, display_name, search, single_hit}
use canokey_manager.Cli.Oath.Accounts.{
  AccessArgs, print, list_entries, make_change, check_unused, confirm_unless, check_name,
}

abbrev pub rename_parts : List ℕ → Option (List ℕ × List ℕ) → Option (List ℕ) × List ℕ
rename_parts name none = (none, name)
rename_parts name (some (issuer, account)) = (some issuer, account)

module _ (host : Host) where
  unfoldable pub delete_entry : Session → Bool → Entry → Command (Unit {0})
  unfolding make_change
  delete_entry session force entry =
      confirm_unless host force (delete_account (display_name host entry)) >>= λ _.
      check_name host entry.name >>= λ _. make_change host session (delete entry.name) >>= λ _.
      print (codes "Deleted " ++ display_name host entry ++ codes ".")

  unfoldable pub delete_listed : Session → List ℕ → Bool → List Entry → Command (Unit {0})
  unfolding search single_hit delete_entry
  delete_listed session query force entries =
      lift (single_hit (search host entries query true)) >>= delete_entry session force

  unfoldable pub delete_in_session : List ℕ → Bool → Session → Command (Unit {0})
  unfolding list_entries delete_listed
  delete_in_session query force session =
      list_entries host session >>= delete_listed session query force

  unfoldable pub accounts_delete :
      Option ℕ → Option (List ℕ) → List ℕ → Bool → AccessArgs → Command (Unit {0})
  unfolding connect delete_in_session
  accounts_delete device reader query force args =
      connect host device reader args.password args.remember >>= delete_in_session query force

  unfoldable pub new_id : Entry → Kind → List ℕ → List ℕ
  unfolding parse_name format_id split_once
  new_id entry kind name =
      let (issuer, account) = rename_parts name (split_once b':' name) in
      format_id issuer account kind (parse_name (host.lossy entry.name) kind).period

  unfoldable pub rename_to : Session → Bool → Entry → List ℕ → Command (Unit {0})
  unfolding make_change
  rename_to session force entry id =
      confirm_unless host force (rename_account (display_name host entry)) >>= λ _.
      check_name host entry.name >>= λ _. check_name host id >>= λ _.
      make_change host session (rename entry.name id) >>= λ _.
      print (codes "Renamed " ++ display_name host entry ++ codes " to " ++ id ++ codes ".")

  unfoldable pub rename_entry : Session → List ℕ → Bool → List Entry → Entry → Command (Unit {0})
  unfolding kind_of new_id check_unused rename_to
  rename_entry session name force entries entry =
      lift (ok_or (kind_of entry) unsupported_kind) >>= λ kind.
      check_unused host (new_id entry kind name) entries >>= λ _.
      rename_to session force entry (new_id entry kind name)

  unfoldable pub rename_listed : Session → List ℕ → List ℕ → Bool → List Entry → Command (Unit {0})
  unfolding search single_hit rename_entry
  rename_listed session query name force entries =
      lift (single_hit (search host entries query true)) >>= rename_entry session name force entries

  unfoldable pub rename_in_session : List ℕ → List ℕ → Bool → Session → Command (Unit {0})
  unfolding list_entries rename_listed
  rename_in_session query name force session =
      list_entries host session >>= rename_listed session query name force

  unfoldable pub accounts_rename :
      Option ℕ → Option (List ℕ) → List ℕ → List ℕ → Bool → AccessArgs → Command (Unit {0})
  unfolding connect rename_in_session
  accounts_rename device reader query name force args =
      connect host device reader args.password args.remember >>= rename_in_session query name force

  abbrev slot_name : Slot → List ℕ
  slot_name short = codes "short"
  slot_name long = codes "long"

  abbrev is_hotp_entry : Entry → Bool
  unfolding kind_of
  is_hotp_entry entry = elim (kind_of entry) [ none ↦ false | some hotp ↦ true | some totp ↦ false ]

  unfoldable pub default_entry : Session → Slot → Bool → Entry → Command (Unit {0})
  unfolding is_hotp_entry make_change
  default_entry session slot enter entry = lift (guard (is_hotp_entry entry) only_hotp) >>= λ _.
      check_name host entry.name >>= λ _.
      make_change host session (set_default slot enter entry.name) >>= λ _.
      print (codes "Default credential set (" ++ slot_name slot ++ codes " touch slot).")

  unfoldable pub accounts_set_default :
      Option ℕ → Option (List ℕ) → List ℕ → Slot → Bool → AccessArgs → Command (Unit {0})
  unfolding connect list_entries search single_hit default_entry
  accounts_set_default device reader query slot enter args =
      connect host device reader args.password args.remember >>= λ session.
      list_entries host session >>= λ entries.
      lift (single_hit (search host entries query true)) >>= default_entry session slot enter
