-- ===== src/Cli/Oath/Codes.antt =====
-- `accounts_list`, `accounts_code`, `write_account_codes`, `account_code`, `calculate_one` and `decimal`
-- of crates/ckman/src/commands/oath.rs. A row is written and flushed in one event.
pub mod Rows
pub mod Hotp
use canokey_manager.Prelude.{
  ℕ, zero, suc, ◌+◌, ◌-◌, Bool, true, false, not, ◌&&◌, ◌||◌, Option, none, some, List, [], ◌∷◌,
  ◌++◌, map, ◌==◌, ltb, leb, length, if◌then◌else◌, Result, ok, err, map_err, ok_or, guard,
}
use canokey_manager.Prelude.Text.{codes}
use canokey_manager.Prelude.Text.Decimal.{to_decimal}
use canokey_manager.Oath.Name.{Kind, hotp, totp, is_totp, ParsedName, parse_name}
use canokey_manager.Oath.Code.{Code, totp_challenge, steam_code}
use canokey_manager.Prelude.Bytes.{bytes_eq}
use canokey_manager.Cli.Select.{filter}
use canokey_manager.Cli.Effects.{Action, ◌>>=◌, pure, fail, event, lift, map_failure}
use canokey_manager.Cli.Oath.{
  OathError, drive, random, Access, Entry, Credential, CredentialRef, Slot, short, long, Change,
  add, rename, delete, set_default, set_password, clear_password, Question, rename_account,
  delete_account, reset_oath, Prompt, current_password, new_password, repeated_password, Event,
  connected, selected, drawn, validated, listed, changed, calculated, answered, keyring_opened,
  keyring_read, keyring_deleted, keyring_written, password_asked, line_asked, confirmed, clock_read,
  applet_reset, printed, warned, written, Selected, modern, legacy, OathMessage, no_randomness,
  wrong_password_message, no_mutual_authentication, no_such_account, no_password_set,
  conditions_failed, rejected, conditions_or_touch, drive_message, Failure, other_failure, message,
  no_password_needed, wrong_password_failure, passwords_differ, no_password_support,
  counter_unsupported, counter_zero, generate_with_secret, no_secret_entered, period_zero,
  digits_range, secret_range, name_range, duplicate_account, invalid_secret, invalid_uri,
  no_uri_entered, no_match, aborted, unsupported_kind, only_hotp, no_code, invalid_challenge,
  challenge_too_long, clear_with_new_password, unsupported_pin, before_epoch, no_matching_account,
  zero_period, fault, multiple_matches, unsupported_algorithm, of_account, Host, is_wrong_password,
  describe_oath, wrong_password, describe_calculation,
}
use canokey_manager.Cli.Oath.Session.{
  Session, Command, described, to_other, connect, run_typed, warn,
}
use canokey_manager.Cli.Oath.Search.{
  kind_of, algorithm_of, kind_or_totp, display_name, is_shown, search,
}
use canokey_manager.Cli.Oath.Accounts.{AccessArgs, list_entries, print}

abbrev pub Row : Type 0
Row = List ℕ × Entry

-- The order of `str`.
abbrev pub text_le : List ℕ → List ℕ → Bool
text_le [] t = true
text_le (a ∷ s) [] = false
text_le (a ∷ s) (b ∷ t) = let rest = text_le s t in if a == b then rest else ltb a b

-- `sort_by_key`, which is stable.
abbrev pub insert_by : {A : Type 0} → (A → List ℕ) → A → List A → List A
insert_by key x [] = x ∷ []
insert_by key x (y ∷ ys) =
    let rest = insert_by key x ys in if text_le (key x) (key y) then x ∷ y ∷ ys else y ∷ rest

abbrev pub sort_by_key : {A : Type 0} → (A → List ℕ) → List A → List A
sort_by_key key [] = []
sort_by_key key (x ∷ xs) = insert_by key x (sort_by_key key xs)

-- `chars().count()`: the bytes that continue no character.
abbrev pub char_count : List ℕ → ℕ
char_count [] = 0
char_count (b ∷ s) = let rest = char_count s in if leb 0x80 b && leb b 0xbf then rest else suc rest

abbrev pub max_count : List Row → ℕ
max_count [] = 0
max_count (row ∷ rows) =
    let rest = max_count rows in if ltb rest (char_count row.0) then char_count row.0 else rest

abbrev spaces : ℕ → List ℕ
spaces zero = []
spaces (suc n) = b' ' ∷ spaces n

-- `{name:<longest_name$}  {code}`, or the code alone
unfoldable pub row_line : Bool → ℕ → Row → List ℕ → List ℕ
row_line true longest row code = code
row_line false longest row code = row.0 ++ spaces (longest - char_count row.0) ++ codes "  " ++ code

module _ (host : Host) where
  abbrev pub write_row : List ℕ → Command (Unit {0})
  write_row line = event (written line) λ h. to_other (host.write_line line h)

  abbrev pub calculate_row : (Entry → Command (List ℕ)) → Row → Command (List ℕ)
  calculate_row calculate row = map_failure (of_account row.0) (calculate row.1)

  -- The loop: each row is written before the next is calculated.
  unfoldable pub write_rows : Bool → ℕ → (Entry → Command (List ℕ)) → List Row → Command (Unit {0})
  unfolding row_line
  write_rows single longest calculate [] = pure tt
  write_rows single longest calculate (row ∷ rows) =
      let rest = write_rows single longest calculate rows in
      calculate_row calculate row >>= λ code.
      write_row (row_line single longest row code) >>= λ _. rest

  abbrev pub sorted_rows : List Entry → List Row
  sorted_rows entries =
      sort_by_key (λ row. host.lowercase row.0)
        (map (λ entry. (display_name host entry, entry)) entries)

  unfoldable pub write_account_codes :
      List Entry → Bool → (Entry → Command (List ℕ)) → Command (Unit {0})
  unfolding write_rows
  write_account_codes entries single calculate =
      let rows = sorted_rows entries in write_rows single (max_count rows) calculate rows

  unfoldable pub decimal : Code → Result (List ℕ) Failure
  decimal code = ok_or (host.decimal code) no_code

  abbrev is_steam_issuer : Option (List ℕ) → Bool
  unfolding bytes_eq
  is_steam_issuer none = false
  is_steam_issuer (some issuer) = bytes_eq issuer (codes "Steam")

  unfoldable pub show_code : Kind → ParsedName → Code → Result (List ℕ) Failure
  unfolding is_totp is_steam_issuer steam_code decimal
  show_code kind parsed code =
      if is_totp kind && is_steam_issuer parsed.issuer
      then ok_or (steam_code code) no_code
      else decimal code

  unfoldable pub calculate_named :
      Entry → Kind → ParsedName → (Kind → ℕ → Command Code) → Command (List ℕ)
  unfolding is_totp show_code
  calculate_named entry kind parsed calculate =
      lift (guard (not (is_totp kind && parsed.period == 0)) zero_period) >>= λ _.
      warn (display_name host entry ++ codes ": touch your CanoKey if it flashes...") >>= λ _.
      calculate kind parsed.period >>= λ code. lift (show_code kind parsed code)

  unfoldable pub account_code_of :
      Entry → Bool → (Kind → ℕ → Command Code) → Option Kind → Command (List ℕ)
  unfolding parse_name calculate_named
  account_code_of entry one_match calculate none = fail unsupported_kind
  account_code_of entry true calculate (some hotp) =
      calculate_named entry hotp (parse_name (host.lossy entry.name) hotp) calculate
  account_code_of entry false calculate (some hotp) = pure (codes "[HOTP Account]")
  account_code_of entry one_match calculate (some totp) =
      calculate_named entry totp (parse_name (host.lossy entry.name) totp) calculate

  unfoldable pub account_code : Entry → Bool → (Kind → ℕ → Command Code) → Command (List ℕ)
  unfolding kind_of account_code_of
  account_code entry one_match calculate = account_code_of entry one_match calculate (kind_of entry)

  -- `totp_challenge` faults on a zero period.
  unfoldable pub challenge_of : Kind → ℕ → ℕ → Result (Option (List ℕ)) Failure
  unfolding totp_challenge
  challenge_of hotp now period = ok none
  challenge_of totp now period = elim (totp_challenge now period) [
    | none ↦ err fault
    | some c ↦ ok (some c)
  ]

  abbrev pub calculate_request :
      CredentialRef → Option (List ℕ) → Option Access → Action Event OathError Code
  calculate_request credential challenge access =
      event (calculated access credential challenge)
        λ h. host.calculate access credential challenge h

  unfoldable pub send_calculation : Session → CredentialRef → Option (List ℕ) → Command Code
  unfolding run_typed describe_calculation
  send_calculation session credential challenge =
      map_failure (λ error. message (describe_calculation error credential.ref_kind))
        (run_typed host session (calculate_request credential challenge))

  unfoldable pub calculate_one : Session → Entry → Kind → ℕ → ℕ → Command Code
  unfolding algorithm_of challenge_of send_calculation
  calculate_one session entry kind period now =
      lift (guard (host.is_name entry.name) name_range) >>= λ _.
      lift (algorithm_of entry) >>= λ algorithm.
      lift (challenge_of kind now period) >>= λ challenge.
      send_calculation session
        (record { ref_name = entry.name; ref_kind = kind; ref_algorithm = algorithm }) challenge

  -- The closure that `accounts_code` passes: the clock is read for each account.
  unfoldable pub calculate_now : Session → Entry → Kind → ℕ → Command Code
  unfolding calculate_one
  calculate_now session entry kind period =
      event clock_read (λ h. ok_or (host.now h) before_epoch) >>= λ now.
      calculate_one session entry kind period now

  abbrev pub is_single : List Entry → Bool
  is_single (entry ∷ []) = true
  is_single _ = false

  abbrev pub wrong_count : List Entry → Failure
  wrong_count [] = no_matching_account
  wrong_count (entry ∷ hits) = multiple_matches (entry ∷ hits)

  unfoldable pub code_of_hit : Session → Bool → Entry → Command (List ℕ)
  unfolding account_code calculate_now
  code_of_hit session one_match entry = account_code entry one_match (calculate_now session entry)

  unfoldable pub write_hits : Session → List Entry → Bool → Command (Unit {0})
  unfolding write_account_codes code_of_hit
  write_hits session [] single = pure tt
  write_hits session (entry ∷ hits) single =
      write_account_codes (entry ∷ hits) single (code_of_hit session (is_single (entry ∷ hits)))

  unfoldable pub accounts_code :
      Option ℕ → Option (List ℕ) → List ℕ → Bool → Bool → AccessArgs → Command (Unit {0})
  unfolding connect list_entries search write_hits
  accounts_code device reader query single show_hidden args =
      connect host device reader args.password args.remember >>= λ session.
      list_entries host session >>= λ entries.
      let hits = search host entries query show_hidden in
      lift (guard (not single || is_single hits) (wrong_count hits)) >>= λ _.
      write_hits session hits single

  abbrev type_name : Option Kind → List ℕ
  type_name none = codes ", unknown"
  type_name (some hotp) = codes ", HOTP"
  type_name (some totp) = codes ", TOTP"

  abbrev period_name : Entry → Option Kind → List ℕ
  unfolding parse_name
  period_name entry (some totp) =
      codes ", " ++ to_decimal (parse_name (host.lossy entry.name) totp).period
  period_name entry _ = []

  unfoldable pub list_row : Bool → Bool → Entry → List ℕ
  unfolding kind_of period_name
  list_row show_type show_period entry =
      display_name host entry
      ++ (if show_type then type_name (kind_of entry) else [])
      ++ (if show_period then period_name entry (kind_of entry) else [])

  abbrev print_all : List (List ℕ) → Command (Unit {0})
  print_all [] = pure tt
  print_all (row ∷ rows) = print row >>= λ _. print_all rows

  unfoldable pub accounts_list :
      Option ℕ → Option (List ℕ) → Bool → Bool → Bool → AccessArgs → Command (Unit {0})
  unfolding connect list_entries is_shown list_row
  accounts_list device reader show_hidden show_type show_period args =
      connect host device reader args.password args.remember >>= λ session.
      list_entries host session >>= λ entries. print_all (
        sort_by_key host.lowercase
          (map (list_row show_type show_period) (filter (is_shown host show_hidden) entries)))
