-- ===== src/Cli/Oath/Accounts/Renaming.antt =====
-- When `accounts_rename` of crates/ckman/src/commands/oath.rs renames an account.
use canokey_manager.Prelude.{
  ℕ, ◌≡◌, ◌≢◌, refl, Bool, true, false, Option, none, some, All, ◌++◌, List, [], ◌∷◌, ok_or,
}
use canokey_manager.Prelude.Text.{split_once, IsSplit, split_once-IsSplit}
use canokey_manager.Oath.Name.{Kind, parse_name, format_id}
use canokey_manager.Cli.Effects.{lift, OnlyQuiet_refl, Guarded, Guarded-bind}
use canokey_manager.Cli.Oath.{
  Entry, rename, rename_account, Event, duplicate_account, unsupported_kind, Host,
}
use canokey_manager.Cli.Oath.Session.{Session}
use canokey_manager.Cli.Oath.Session.Reading.{IsReading}
use canokey_manager.Cli.Oath.Search.{kind_of, display_name, search}
use canokey_manager.Cli.Oath.Accounts.{
  AccessArgs, any_named, check_unused, confirm_unless, check_name,
}
use canokey_manager.Cli.Oath.Accounts.Edit.{
  rename_parts, new_id, rename_to, rename_entry, rename_listed, rename_in_session, accounts_rename,
}
use canokey_manager.Cli.Oath.Accounts.Consent.{
  print-Reading, guard-eq-ok, IsListed, Sends, IsWanted, confirm_unless-Reading,
  confirm_unless-eq-ok, IsListed-later, IsWanted-later, change_and_print-Guarded,
  on_single_hit-Guarded, ok_or-eq-ok, not-eq-true,
}

module _ (host : Host) where
  -- The identifier made of a name on the command line, of a period and of a kind: the issuer is what
  -- stands before the first colon, if there is one, and the account what stands behind it.
  abbrev IsJoined : Option (List ℕ) → List ℕ → List ℕ → Type 0
  IsJoined none account name = (account ≡ name) × All (λ c. c ≢ b':') name
  IsJoined (some issuer) account name =
      (name ≡ issuer ++ (b':' ∷ account)) × All (λ c. c ≢ b':') issuer

  abbrev pub IsNewId : Entry → Kind → List ℕ → List ℕ → Type 0
  IsNewId entry kind name id =
      (issuer : Option (List ℕ)) × (account : List ℕ) × (period : ℕ) × IsJoined issuer account name
      × (period ≡ (parse_name (display_name host entry) kind).period)
      × (id ≡ format_id issuer account kind period)

  new_id-IsNewId :
      (entry : Entry) (kind : Kind) (name : List ℕ)
      → IsNewId entry kind name (new_id host entry kind name)
  unfolding new_id
  new_id-IsNewId entry kind name = by_split (split_once b':' name) (split_once-IsSplit b':' name)
    where
      by_split :
          (o : Option (List ℕ × List ℕ))
          → IsSplit b':' name o
          → IsNewId entry kind name (
              format_id
                (rename_parts name o).0
                (rename_parts name o).1
                kind
                (parse_name (display_name host entry) kind).period)
      by_split none h = (none, name, _, (refl, h), refl, refl)
      by_split (some (issuer, account)) (e, h) = (some issuer, account, _, (e, h), refl, refl)

  -- What is known when an account is renamed.
  abbrev pub IsRenaming : List ℕ → List ℕ → Bool → List Event → Event → Type 0
  IsRenaming query name force before v =
      (entries : List Entry) × (entry : Entry) × (kind : Kind) × (id : List ℕ) × IsNewId entry kind
        name id
      × Sends host (rename entry.name id)
          (λ h.
            IsListed host entries h
            × (search host entries query true ≡ entry ∷ [])
            × (kind_of entry ≡ some kind)
            × (any_named id entries ≡ false)
            × IsWanted host force (rename_account (display_name host entry)) h)
          before v

  rename_to-Guarded :
      (query name : List ℕ) (force : Bool) (session : Session) (entries : List Entry)
      (entry : Entry) (kind : Kind) (h : List Event)
      → IsListed host entries h
      → search host entries query true ≡ entry ∷ []
      → kind_of entry ≡ some kind
      → any_named (new_id host entry kind name) entries ≡ false
      → Guarded IsReading
          (IsRenaming query name force)
          h
          (rename_to host session force entry (new_id host entry kind name) h)
  unfolding rename_to
  rename_to-Guarded query name force session entries entry kind h l s k u =
      let question = rename_account (display_name host entry) in
      let id = new_id host entry kind name in
      let W = IsRenaming query name force in
      Guarded-bind IsReading W (confirm_unless host force question) _ h
        (confirm_unless-Reading host force question h)
        (λ _ c.
          let h1 = (confirm_unless host force question h).1 in
          Guarded-bind IsReading W (check_name host entry.name) _ h1 (OnlyQuiet_refl IsReading h1)
            (λ _ n.
              Guarded-bind IsReading W (check_name host id) _ h1 (OnlyQuiet_refl IsReading h1)
                (λ _ m.
                  change_and_print-Guarded host W session (rename entry.name id) _ h1
                    (λ _. print-Reading _)
                    (λ before v (access, e, quiet). (
                      entries,
                      entry,
                      kind,
                      id,
                      new_id-IsNewId entry kind name,
                      (
                        access,
                        e,
                        (
                          IsListed-later host entries h1 before
                              (IsListed-later host entries h h1 l
                                (confirm_unless-Reading host force question h))
                              quiet,
                          s,
                          k,
                          u,
                          IsWanted-later host force question h1 before
                              (confirm_unless-eq-ok host force question h c) quiet,
                        ),
                      ),
                    )))))

  rename_entry-Guarded :
      (query name : List ℕ) (force : Bool) (session : Session) (entries : List Entry)
      (entry : Entry) (h : List Event)
      → IsListed host entries h
      → search host entries query true ≡ entry ∷ []
      → Guarded IsReading
          (IsRenaming query name force)
          h
          (rename_entry host session name force entries entry h)
  unfolding rename_entry check_unused
  rename_entry-Guarded query name force session entries entry h l s =
      let W = IsRenaming query name force in
      Guarded-bind IsReading W (lift (ok_or (kind_of entry) unsupported_kind)) _ h
        (OnlyQuiet_refl IsReading h)
        (λ kind k.
          Guarded-bind IsReading W (check_unused host (new_id host entry kind name) entries) _ h
            (OnlyQuiet_refl IsReading h)
            (λ _ u.
              rename_to-Guarded query name force session entries entry kind h l s
                (ok_or-eq-ok host (kind_of entry) unsupported_kind kind k)
                (not-eq-true host _ (guard-eq-ok _ duplicate_account u))))

  -- Renaming sends at most one request that changes the card: it renames the account that is the
  -- only one of those listed that the query finds, to the identifier made of the new name, split at its
  -- first colon, and of the account's own period, which no account that was listed has, where the user
  -- forced it or said yes to renaming the account of this displayed name.
  pub accounts_rename-Guarded :
      (device : Option ℕ) (reader : Option (List ℕ)) (query name : List ℕ) (force : Bool)
      (args : AccessArgs) (h : List Event)
      → Guarded IsReading
          (IsRenaming query name force)
          h
          (accounts_rename host device reader query name force args h)
  unfolding accounts_rename rename_in_session rename_listed
  accounts_rename-Guarded device reader query name force args h =
      on_single_hit-Guarded host (IsRenaming query name force) device reader args query
        (λ session entries entry. rename_entry host session name force entries entry)
        (λ session entries entry h l s.
          rename_entry-Guarded query name force session entries entry h l s)
        h
