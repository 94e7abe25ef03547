-- ===== src/Cli/Oath/Accounts/Deletion.antt =====
-- When `accounts_delete` of crates/ckman/src/commands/oath.rs deletes an account.
use canokey_manager.Prelude.{ℕ, ◌≡◌, Bool, true, Option, List, [], ◌∷◌}
use canokey_manager.Cli.Effects.{OnlyQuiet_refl, Guarded, Guarded-bind}
use canokey_manager.Cli.Oath.{Entry, delete, delete_account, Event, Host}
use canokey_manager.Cli.Oath.Session.{Session}
use canokey_manager.Cli.Oath.Session.Reading.{IsReading}
use canokey_manager.Cli.Oath.Search.{display_name, search}
use canokey_manager.Cli.Oath.Accounts.{AccessArgs, confirm_unless, check_name}
use canokey_manager.Cli.Oath.Accounts.Edit.{
  delete_entry, delete_listed, delete_in_session, accounts_delete,
}
use canokey_manager.Cli.Oath.Accounts.Consent.{
  print-Reading, IsListed, Sends, IsWanted, confirm_unless-Reading, confirm_unless-eq-ok,
  IsListed-later, IsWanted-later, change_and_print-Guarded, on_single_hit-Guarded,
}

module _ (host : Host) where
  -- What is known when an account is deleted.
  abbrev pub IsDeletion : List ℕ → Bool → List Event → Event → Type 0
  IsDeletion query force before v =
      (entries : List Entry) × (entry : Entry) × Sends host (delete entry.name)
        (λ h.
          IsListed host entries h
          × (search host entries query true ≡ entry ∷ [])
          × IsWanted host force (delete_account (display_name host entry)) h)
        before v

  delete_entry-Guarded :
      (query : List ℕ) (force : Bool) (session : Session) (entries : List Entry) (entry : Entry)
      (h : List Event)
      → IsListed host entries h
      → search host entries query true ≡ entry ∷ []
      → Guarded IsReading (IsDeletion query force) h (delete_entry host session force entry h)
  unfolding delete_entry
  delete_entry-Guarded query force session entries entry h l s =
      let question = delete_account (display_name host entry) in
      Guarded-bind IsReading (IsDeletion query force) (confirm_unless host force question) _ h
        (confirm_unless-Reading host force question h)
        (λ _ c.
          let h1 = (confirm_unless host force question h).1 in
          Guarded-bind IsReading (IsDeletion query force) (check_name host entry.name) _ h1
            (OnlyQuiet_refl IsReading h1)
            (λ _ n.
              change_and_print-Guarded host (IsDeletion query force) session (delete entry.name) _
                h1 (λ _. print-Reading _)
                (λ before v (access, e, quiet). (
                  entries,
                  entry,
                  (
                    access,
                    e,
                    (
                      IsListed-later host entries h1 before
                          (IsListed-later host entries h h1 l
                            (confirm_unless-Reading host force question h))
                          quiet,
                      s,
                      IsWanted-later host force question h1 before
                          (confirm_unless-eq-ok host force question h c) quiet,
                    ),
                  ),
                ))))

  -- Deleting sends at most one request that changes the card: the deletion of the account that is the
  -- only one of those listed that the query finds, hidden ones included, where the user forced it or
  -- said yes to deleting the account of this displayed name.
  pub accounts_delete-Guarded :
      (device : Option ℕ) (reader : Option (List ℕ)) (query : List ℕ) (force : Bool)
      (args : AccessArgs) (h : List Event)
      → Guarded IsReading
          (IsDeletion query force)
          h
          (accounts_delete host device reader query force args h)
  unfolding accounts_delete delete_in_session delete_listed
  accounts_delete-Guarded device reader query force args h =
      on_single_hit-Guarded host (IsDeletion query force) device reader args query
        (λ session entries entry. delete_entry host session force entry)
        (λ session entries entry h l s.
          delete_entry-Guarded query force session entries entry h l s)
        h
