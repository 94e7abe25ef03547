-- ===== src/Cli/Oath/Password/Entered.antt =====
-- What `access_change` of crates/ckman/src/commands/oath.rs has seen when it changes the password.
use canokey_manager.Prelude.{
  ℕ, ◌≡◌, ◌∙◌, refl, sym, ap, inl, inr, Bool, true, false, Option, none, some, List, [], ◌∷◌, ◌++◌,
  Result, ok, err, ok_or, Result-cases, Bool-cases, ok_injective,
}
use canokey_manager.Prelude.Bytes.{bytes_eq}
use canokey_manager.Prelude.Text.{codes}
use canokey_manager.Cli.Effects.{
  ◌>>=◌, pure, lift, OnlyQuiet_refl, OnlyQuiet-step, Quiet, Quiet-bind, Guarded, Guarded-bind,
}
use canokey_manager.Cli.Oath.{
  set_password, clear_password, new_password, repeated_password, Event, password_asked, connected,
  Selected, modern, legacy, no_password_support, Host,
}
use canokey_manager.Cli.Oath.Session.{Session, to_other, forget_key, ask_password, connect}
use canokey_manager.Cli.Oath.Session.Handle.{handle_of, connect-handle}
use canokey_manager.Cli.Oath.Session.Reading.{
  IsReading, connect-Reading, forget_key-Reading, remember_key-Reading,
}
use canokey_manager.Cli.Oath.Accounts.{print}
use canokey_manager.Cli.Oath.Accounts.Consent.{Sends, change_and_print-Guarded, print-Reading}
use canokey_manager.Cli.Oath.Password.{
  same_password, read_new_password, clear_in_session, update_keyring, set_in_session,
  change_in_session, access_change,
}

module _ (host : Host) where
  -- The user has given the password, or has entered it twice in a row.
  abbrev pub IsEntered : Option (List ℕ) → List ℕ → Type 0
  IsEntered (some given) password = password ≡ given
  IsEntered none password =
      (before : List Event) × (repeated : List ℕ) × (host.prompt_password new_password before
        ≡ ok password)
      × (host.prompt_password repeated_password (before ++ (password_asked new_password ∷ []))
          ≡ ok repeated)
      × (bytes_eq password repeated ≡ true)

  -- The card has given this handle when it was selected, at the beginning.
  abbrev pub IsHandle : Option ℕ → Option (List ℕ) → List Event → List ℕ → Type 0
  IsHandle device reader h handle =
      (locked : Bool) × (host.select (h ++ (connected device reader ∷ []))
        ≡ ok (modern handle locked))

  -- The change of the password that is sent.
  abbrev pub IsPasswordChange :
      (List ℕ → Type 0) → Bool → Option (List ℕ) → List Event → Event → Type 0
  IsPasswordChange HasHandle true given before v =
      Sends host clear_password (λ h. given ≡ none) before v
  IsPasswordChange HasHandle false given before v =
      (password handle : List ℕ) × HasHandle handle
      × Sends host (set_password (host.access_key (host.derive_key password handle)))
          (λ h. IsEntered given password) before v

  read_new_password-Reading :
      (given : Option (List ℕ)) → Quiet IsReading (read_new_password host given)
  unfolding read_new_password same_password
  read_new_password-Reading (some password) = OnlyQuiet_refl IsReading
  read_new_password-Reading none =
      Quiet-bind IsReading (ask_password host new_password)
        (λ entered.
          ask_password host repeated_password >>= λ repeated. same_password host entered repeated)
        (λ h. OnlyQuiet-step IsReading h (password_asked new_password) tt)
        (λ entered.
          Quiet-bind IsReading (ask_password host repeated_password)
            (λ repeated. same_password host entered repeated)
            (λ h. OnlyQuiet-step IsReading h (password_asked repeated_password) tt)
            (λ repeated h. elim (Bool-cases (bytes_eq entered repeated)) [
              | inl e ↦ rw e (OnlyQuiet_refl IsReading h)
              | inr e ↦ rw e (OnlyQuiet_refl IsReading h)
            ]))

  map_other-eq-ok : {A : Type 0} (r : Result A ℕ) (a : A) → to_other r ≡ ok a → r ≡ ok a
  map_other-eq-ok (ok b) a h = ap ok (ok_injective h)
  map_other-eq-ok (err e) a h = absurd (cc)

  read_new_password-IsEntered :
      (given : Option (List ℕ)) (h : List Event) (password : List ℕ)
      → (read_new_password host given h).0 ≡ ok password
      → IsEntered given password
  unfolding read_new_password same_password
  read_new_password-IsEntered (some p) h password e = sym (ok_injective e)
  read_new_password-IsEntered none h password e =
      elim (Result-cases (host.prompt_password new_password h)) [
        | inr (x, p) ↦ absurd (cc (rw p at e))
        | inl (entered, p) ↦
            elim (Result-cases
              (host.prompt_password repeated_password (h ++ (password_asked new_password ∷ [])))) [
                | inr (x, q) ↦ absurd (cc (rw (p, q) at e))
                | inl (repeated, q) ↦ elim (Bool-cases (bytes_eq entered repeated)) [
                  | inr b ↦ absurd (cc (rw (p, q, b) at e))
                  | inl b ↦
                      let same : entered ≡ password = ok_injective (rw (p, q, b) at e) in
                      (h, repeated, p ∙ ap ok same, q, ap (λ t. bytes_eq t repeated) (sym same) ∙ b)
                ]
              ]
      ]

  update_keyring-Reading :
      (session : Session) (key : List ℕ) (remember : Bool)
      → Quiet IsReading (update_keyring host session key remember)
  unfolding update_keyring
  update_keyring-Reading session key true = remember_key-Reading host session key
  update_keyring-Reading session key false =
      Quiet-bind IsReading (forget_key host session) (λ _. pure tt)
        (forget_key-Reading host session) (λ _. OnlyQuiet_refl IsReading)

  set_in_session-Guarded :
      (HasHandle : List ℕ → Type 0) (session : Session) (given : Option (List ℕ)) (handle : List ℕ)
      (remember : Bool) (password : List ℕ) (h : List Event)
      → HasHandle handle
      → IsEntered given password
      → Guarded IsReading
          (IsPasswordChange HasHandle false given)
          h
          (set_in_session host session handle remember password h)
  unfolding set_in_session
  set_in_session-Guarded HasHandle session given handle remember password h k entered =
      let key = host.derive_key password handle in
      change_and_print-Guarded host (IsPasswordChange HasHandle false given) session
        (set_password (host.access_key key)) _ h
        (λ _.
          Quiet-bind IsReading (update_keyring host session key remember)
            (λ _. print (codes "Password updated.")) (update_keyring-Reading session key remember)
            (λ _. print-Reading (codes "Password updated.")))
        (λ before v (access, e, quiet). (password, handle, k, (access, e, entered)))

  -- Changing the password sends at most one request that changes the card: with `--clear`, where no
  -- new password is given, it removes the password; otherwise it sets the key that is derived from the
  -- password that was given, or that was entered at both prompts, and from the handle that the card
  -- has given when it was selected.
  pub access_change-Guarded :
      (device : Option ℕ) (reader password : Option (List ℕ)) (clear : Bool)
      (given : Option (List ℕ)) (remember : Bool) (h : List Event)
      → Guarded IsReading
          (IsPasswordChange (IsHandle device reader h) clear given)
          h
          (access_change host device reader password clear given remember h)
  unfolding access_change clear_in_session change_in_session
  access_change-Guarded device reader password true (some new) remember h =
      inl (OnlyQuiet_refl IsReading h)
  access_change-Guarded device reader password true none remember h =
      Guarded-bind IsReading (IsPasswordChange (IsHandle device reader h) true none)
        (connect host device reader password false) (clear_in_session host) h
        (connect-Reading host device reader password false h)
        (λ session c. cleared session (connect host device reader password false h).1)
    where
      cleared :
          (session : Session) (h1 : List Event)
          → Guarded IsReading
              (IsPasswordChange (IsHandle device reader h) true none)
              h1
              (clear_in_session host session h1)
      cleared session h1 =
          change_and_print-Guarded host (IsPasswordChange (IsHandle device reader h) true none)
            session clear_password _ h1
            (λ _.
              Quiet-bind IsReading (forget_key host session)
                (λ _. print (codes "Password cleared from the CanoKey."))
                (forget_key-Reading host session)
                (λ _. print-Reading (codes "Password cleared from the CanoKey.")))
            (λ before v (access, e, quiet). (access, e, refl))
  access_change-Guarded device reader password false given remember h =
      let W = IsPasswordChange (IsHandle device reader h) false given in
      Guarded-bind IsReading W (connect host device reader password false)
        (change_in_session host given remember) h
        (connect-Reading host device reader password false h)
        (λ session c.
          changed_by session (connect host device reader password false h).1
            (connect-handle host device reader password false h session c))
    where
      is_handle :
          (session : Session) (handle : List ℕ)
          → (selection : Selected) × (host.select (h ++ (connected device reader ∷ []))
              ≡ ok selection)
            × (session.handle ≡ handle_of selection)
          → ok_or session.handle no_password_support ≡ ok handle
          → IsHandle device reader h handle
      is_handle session handle (legacy, s, e) k = absurd (cc (rw e at k))
      is_handle session handle (modern own locked, s, e) k =
          let same : own ≡ handle = ok_injective (rw e at k) in
          (locked, s ∙ ap (λ x. ok (modern x locked)) same)

      changed_by :
          (session : Session) (h0 : List Event)
          → (selection : Selected) × (host.select (h ++ (connected device reader ∷ []))
              ≡ ok selection)
            × (session.handle ≡ handle_of selection)
          → Guarded IsReading
              (IsPasswordChange (IsHandle device reader h) false given)
              h0
              (change_in_session host given remember session h0)
      changed_by session h0 opened =
          let W = IsPasswordChange (IsHandle device reader h) false given in
          Guarded-bind IsReading W (read_new_password host given) _ h0
            (read_new_password-Reading given h0)
            (λ new e.
              let h1 = (read_new_password host given h0).1 in
              Guarded-bind IsReading W (lift (ok_or session.handle no_password_support)) _ h1
                (OnlyQuiet_refl IsReading h1)
                (λ handle k.
                  set_in_session-Guarded (IsHandle device reader h) session given handle remember
                    new h1 (is_handle session handle opened k)
                    (read_new_password-IsEntered given h0 new e)))
